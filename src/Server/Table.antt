-- ===== src/Server/Table.antt =====
-- `Dispatch()` of agent/source/server.cpp: the command table, in the source's order, and as the
-- `std::map` that is built from it.
use switch_mcp.Base.{
  Bool, true, false, List, [], ◌∷◌, Option, none, some, String, Bytes, codes, eq, before,
  if◌then◌else◌,
}
use switch_mcp.Agent.{Tier, observe, control, invasive}
use switch_mcp.Server.Handlers.{
  Handler, agent_info, screenshot, sys_info, process_list, crash_reports, read_log, titles,
  title_icon, running_app, console_info, net_info, fatal_reports, preflight_check, journal_read,
  watchdog_status, controllers, read_input, wait_event, record_input, get_clocks, get_brightness,
  get_volume, get_time, get_sleep, settings_get, fs_list, fs_read, fs_stat, fs_mounts, fs_hash,
  fs_free_space, fs_find, fs_grep, save_list, save_mount, save_unmount, nand_read, album_list,
  album_download, i2c_read, gpio_read, cheat_status, cheat_list, cheat_meta, cheat_mappings,
  cheat_read_mem, search_begin, search_next, search_results, search_reset, input, touch, type_text,
  launch, terminate, reboot, shutdown, agent_restart, set_brightness, set_auto_brightness,
  set_volume, set_sleep, set_time, set_wireless, fs_write, fs_delete, fs_mkdir, fs_rename, fs_copy,
  backup_save, debug_attach, debug_detach, debug_continue, debug_break, debug_poll_events,
  debug_read_mem, debug_mem_map, debug_threads, debug_registers, debug_search, debug_modules,
  debug_backtrace, cheat_toggle, debug_set_watchpoint, debug_set_breakpoint, debug_clear_breakpoint,
  restore_save, uninstall, reboot_to_payload, set_clocks, debug_write_mem, debug_write_registers,
  debug_set_hw_bp_raw, cheat_write_mem, freeze_address, unfreeze_address, i2c_write,
}

-- A command: its handler, the authority that it needs, and whether it mutates.
pub record Command : Type 0 where
  pub fn : Handler
  pub tier : Tier
  pub mutating : Bool

abbrev pub Row : Type 0
Row = Bytes × Command

abbrev row : String → Handler → Tier → Bool → Row
row name fn tier mutating = (codes name, record { fn = fn; tier = tier; mutating = mutating })

abbrev observe_rows : List Row
observe_rows =
    row "agent.info" agent_info observe false
    ∷ row "screenshot" screenshot observe false
    ∷ row "sysinfo" sys_info observe false
    ∷ row "ps" process_list observe false
    ∷ row "crash_reports" crash_reports observe false
    ∷ row "read_log" read_log observe false
    ∷ row "titles" titles observe false
    ∷ row "title_icon" title_icon observe false
    ∷ row "running_app" running_app observe false
    ∷ row "console_info" console_info observe false
    ∷ row "net_info" net_info observe false
    ∷ row "fatal_reports" fatal_reports observe false
    ∷ row "preflight" preflight_check observe false
    ∷ row "journal" journal_read observe false
    ∷ row "watchdog" watchdog_status observe false
    ∷ row "controllers" controllers observe false
    ∷ row "read_input" read_input observe false
    ∷ row "wait_event" wait_event observe false
    ∷ row "record_input" record_input observe false
    ∷ row "get_clocks" get_clocks observe false
    ∷ row "get_brightness" get_brightness observe false
    ∷ row "get_volume" get_volume observe false
    ∷ row "get_time" get_time observe false
    ∷ row "get_sleep" get_sleep observe false
    ∷ row "settings.get" settings_get observe false
    ∷ row "fs.list" fs_list observe false
    ∷ row "fs.read" fs_read observe false
    ∷ row "fs.stat" fs_stat observe false
    ∷ row "fs.mounts" fs_mounts observe false
    ∷ row "fs.hash" fs_hash observe false
    ∷ row "fs.freespace" fs_free_space observe false
    ∷ row "fs.find" fs_find observe false
    ∷ row "fs.grep" fs_grep observe false
    ∷ row "save.list" save_list observe false
    ∷ row "save.mount" save_mount observe false
    ∷ row "save.unmount" save_unmount observe false
    ∷ row "nand.read" nand_read observe false
    ∷ row "album.list" album_list observe false
    ∷ row "album.download" album_download observe false
    ∷ row "i2c.read" i2c_read observe false
    ∷ row "gpio.read" gpio_read observe false
    ∷ row "cheat.status" cheat_status observe false
    ∷ row "cheat.list" cheat_list observe false
    ∷ row "cheat.meta" cheat_meta observe false
    ∷ row "cheat.mappings" cheat_mappings observe false
    ∷ row "cheat.read_mem" cheat_read_mem observe false
    ∷ row "search.begin" search_begin observe false
    ∷ row "search.next" search_next observe false
    ∷ row "search.results" search_results observe false
    ∷ row "search.reset" search_reset observe false
    ∷ []

abbrev control_rows : List Row
control_rows =
    row "input" input control false
    ∷ row "touch" touch control false
    ∷ row "type_text" type_text control false
    ∷ row "launch" launch control true
    ∷ row "terminate" terminate control true
    ∷ row "reboot" reboot control true
    ∷ row "shutdown" shutdown control true
    ∷ row "agent.restart" agent_restart control true
    ∷ row "set_brightness" set_brightness control true
    ∷ row "set_auto_brightness" set_auto_brightness control true
    ∷ row "set_volume" set_volume control true
    ∷ row "set_sleep" set_sleep control true
    ∷ row "set_time" set_time control true
    ∷ row "set_wireless" set_wireless control true
    ∷ row "fs.write" fs_write control true
    ∷ row "fs.delete" fs_delete control true
    ∷ row "fs.mkdir" fs_mkdir control true
    ∷ row "fs.rename" fs_rename control true
    ∷ row "fs.copy" fs_copy control true
    ∷ row "save.backup" backup_save control true
    ∷ row "debug.attach" debug_attach control true
    ∷ row "debug.detach" debug_detach control true
    ∷ row "debug.continue" debug_continue control true
    ∷ row "debug.break" debug_break control true
    ∷ row "debug.poll_events" debug_poll_events control false
    ∷ row "debug.read_mem" debug_read_mem control false
    ∷ row "debug.memmap" debug_mem_map control false
    ∷ row "debug.threads" debug_threads control false
    ∷ row "debug.registers" debug_registers control false
    ∷ row "debug.search" debug_search control false
    ∷ row "debug.modules" debug_modules observe false
    ∷ row "debug.backtrace" debug_backtrace control false
    ∷ row "cheat.toggle" cheat_toggle control true
    ∷ row "debug.set_watchpoint" debug_set_watchpoint control true
    ∷ row "debug.set_breakpoint" debug_set_breakpoint control true
    ∷ row "debug.clear_breakpoint" debug_clear_breakpoint control true
    ∷ []

abbrev invasive_rows : List Row
invasive_rows =
    row "save.restore" restore_save invasive true
    ∷ row "uninstall" uninstall invasive true
    ∷ row "reboot_to_payload" reboot_to_payload invasive true
    ∷ row "set_clocks" set_clocks invasive true
    ∷ row "debug.write_mem" debug_write_mem invasive true
    ∷ row "debug.write_registers" debug_write_registers invasive true
    ∷ row "debug.set_hwbp_raw" debug_set_hw_bp_raw invasive true
    ∷ row "cheat.write_mem" cheat_write_mem invasive true
    ∷ row "cheat.freeze" freeze_address invasive true
    ∷ row "cheat.unfreeze" unfreeze_address invasive true
    ∷ row "i2c.write" i2c_write invasive true
    ∷ []

-- `std::map` of an initializer list: keys ascend, and the first row of a key stays.
unfoldable pub place : Row → List Row → List Row
place r [] = r ∷ []
place (k, c) ((j, d) ∷ rows) =
    if before k j
    then (k, c) ∷ (j, d) ∷ rows
    else if before j k
    then (j, d) ∷ place (k, c) rows
    else (j, d) ∷ rows

unfoldable pub place_all : List Row → List Row → List Row
place_all [] table = table
place_all (r ∷ rows) table = place_all rows (place r table)

unfoldable pub dispatch : List Row
unfolding place_all place
dispatch = place_all invasive_rows (place_all control_rows (place_all observe_rows []))

unfoldable pub find_command : Bytes → List Row → Option Command
find_command k [] = none
find_command k ((j, c) ∷ rows) = if eq j k then some c else find_command k rows
