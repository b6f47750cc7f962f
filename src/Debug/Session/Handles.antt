-- ===== src/Debug/Session/Handles.antt =====
-- Which handles are open after any sequence of the debugger's commands.
use switch_mcp.Base.{
  ℕ, Bool, true, false, List, [], ◌∷◌, ◌++◌, Option, none, some, ◌≡◌, refl, sym, ap, ◌∙◌, ◌==◌,
  ==_refl, if◌then◌else◌, Option-cases, inl, inr,
}
use switch_mcp.Json.Value.{as_bool, as_int}
use switch_mcp.Agent.{Request, or_return, field_of, Answer}
use switch_mcp.Debug.Session.{
  Target, Session, no_session, SvcCall, opened, closed, continued, broke, Debugging, DebugEvent,
  attach, poll_events, continue, break, detach, close, process_of,
}

pub data DebugCommand : Type 0 where
  attach_command poll_command : Request → DebugCommand
  continue_command break_command detach_command : DebugCommand

-- What answers a command: the kernel at that time, and the events in the queue.
abbrev pub Moment : Type 0
Moment = Target × List DebugEvent

abbrev pub run_command : DebugCommand → Moment → Session → Debugging
run_command (attach_command req) (t, evs) s = attach t req s
run_command (poll_command req) (t, evs) s = poll_events evs req s
run_command continue_command (t, evs) s = continue s
run_command break_command (t, evs) s = break t s
run_command detach_command (t, evs) s = detach s

-- The session and all calls behind a sequence of commands.
unfoldable pub run_commands : List (DebugCommand × Moment) → Session → Session × List SvcCall
run_commands [] s = (s, [])
run_commands ((command, moment) ∷ rest) s =
    let (answer, s', calls) = run_command command moment s in
    let (end, others) = run_commands rest s' in (end, calls ++ others)

abbrev pub without : ℕ → List ℕ → List ℕ
without h [] = []
without h (k ∷ ks) = if k == h then ks else k ∷ without h ks

-- The handles that are open behind some calls, of those that were open before.
unfoldable pub open_handles : List SvcCall → List ℕ → List ℕ
open_handles [] handles = handles
open_handles (opened h ∷ calls) handles = open_handles calls (h ∷ handles)
open_handles (closed h ∷ calls) handles = open_handles calls (without h handles)
open_handles (continued h ∷ calls) handles = open_handles calls handles
open_handles (broke h ∷ calls) handles = open_handles calls handles

abbrev pub held : Session → List ℕ
held s = or_return s.debug [] (λ h. h ∷ [])

open_handles-append :
    (front back : List SvcCall) (handles : List ℕ)
    → open_handles (front ++ back) handles ≡ open_handles back (open_handles front handles)
unfolding open_handles
open_handles-append [] back handles = refl
open_handles-append (opened h ∷ front) back handles = open_handles-append front back (h ∷ handles)
open_handles-append (closed h ∷ front) back handles =
    open_handles-append front back (without h handles)
open_handles-append (continued h ∷ front) back handles = open_handles-append front back handles
open_handles-append (broke h ∷ front) back handles = open_handles-append front back handles

-- A handler leaves just the handle of its session open.
abbrev Tidy : Session → Debugging → Type 0
Tidy s (answer, s', calls) = open_handles calls (held s) ≡ held s'

close-held : (s : Session) → open_handles (close s) (held s) ≡ []
unfolding open_handles
close-held s = elim (Option-cases s.debug) [
  | inl e ↦ rw e refl
  | inr (h, e) ↦ rw e (rw (==_refl h) refl)
]

opening :
    (h : ℕ) (pause : Bool)
    → open_handles (opened h ∷ (if pause then [] else continued h ∷ [])) [] ≡ h ∷ []
unfolding open_handles
opening h true = refl
opening h false = refl

attach-Tidy : (t : Target) (req : Request) (s : Session) → Tidy s (attach t req s)
unfolding attach
attach-Tidy t req s = elim (Option-cases (process_of t (as_int (field_of req "pid") 0))) [
  | inl e ↦ rw e (close-held s)
  | inr (pid, e) ↦ rw e (elim (Option-cases (t.debug_active pid)) [
    | inl f ↦ rw f (close-held s)
    | inr (h, f) ↦ rw f (
        open_handles-append (close s) _ (held s)
        ∙ ap (open_handles _) (close-held s)
        ∙ opening h (as_bool (field_of req "pause") true))
  ])
]

session-Tidy :
    (o : Option ℕ) (answer : Answer) (s : Session) (rest : ℕ → Debugging)
    → ((h : ℕ) → Tidy s (rest h))
    → Tidy s (or_return o (answer, s, []) rest)
unfolding open_handles
session-Tidy none answer s rest tidy = refl
session-Tidy (some h) answer s rest tidy = tidy h

resumed :
    (h : ℕ) (resume : Bool) (handles : List ℕ)
    → open_handles (if resume then continued h ∷ [] else []) handles ≡ handles
unfolding open_handles
resumed h true handles = refl
resumed h false handles = refl

broken :
    (h : ℕ) (breaks : Bool) (s : Session) (told failed : Answer)
    → Tidy s (if breaks then (told, s, broke h ∷ []) else (failed, s, broke h ∷ []))
unfolding open_handles
broken h true s told failed = refl
broken h false s told failed = refl

emptied : (s : Session) (o : Option ℕ) → s.debug ≡ o → held (or_return o s (λ h. no_session)) ≡ []
emptied s none e = rw e refl
emptied s (some h) e = refl

detach-Tidy : (s : Session) → Tidy s (detach s)
unfolding detach
detach-Tidy s = close-held s ∙ sym (emptied s s.debug refl)

run_command-Tidy :
    (command : DebugCommand) (m : Moment) (s : Session) → Tidy s (run_command command m s)
unfolding poll_events continue break open_handles
run_command-Tidy (attach_command req) (t, evs) s = attach-Tidy t req s
run_command-Tidy (poll_command req) (t, evs) s =
    session-Tidy s.debug _ s _ (λ h. resumed h (as_bool (field_of req "resume") true) (held s))
run_command-Tidy continue_command (t, evs) s = session-Tidy s.debug _ s _ (λ h. refl)
run_command-Tidy break_command (t, evs) s =
    session-Tidy s.debug _ s _ (λ h. broken h t.breaks s _ _)
run_command-Tidy detach_command (t, evs) s = detach-Tidy s

-- After any sequence of the debugger's commands, whatever the kernel answers, exactly the handle of the
-- session is open: none is lost, and no other is left.
pub run_commands-held :
    (commands : List (DebugCommand × Moment)) (s : Session)
    → open_handles (run_commands commands s).1 (held s) ≡ held ((run_commands commands s).0)
unfolding run_commands open_handles
run_commands-held [] s = refl
run_commands-held ((command, m) ∷ rest) s =
    let r = run_command command m s in
    open_handles-append r.2 (run_commands rest r.1).1 (held s)
    ∙ ap (open_handles (run_commands rest r.1).1) (run_command-Tidy command m s)
    ∙ run_commands-held rest r.1
