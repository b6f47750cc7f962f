-- ===== src/Server/Handlers.antt =====
-- The handlers that the command table names, one constructor for each function pointer.

pub data Handler : Type 0 where
  agent_info screenshot sys_info process_list crash_reports read_log titles : Handler
  title_icon running_app console_info net_info fatal_reports preflight_check : Handler
  journal_read watchdog_status controllers read_input wait_event record_input : Handler
  get_clocks get_brightness get_volume get_time get_sleep settings_get fs_list : Handler
  fs_read fs_stat fs_mounts fs_hash fs_free_space fs_find fs_grep save_list : Handler
  save_mount save_unmount nand_read album_list album_download i2c_read gpio_read : Handler
  cheat_status cheat_list cheat_meta cheat_mappings cheat_read_mem search_begin : Handler
  search_next search_results search_reset input touch type_text launch terminate : Handler
  reboot shutdown agent_restart set_brightness set_auto_brightness set_volume : Handler
  set_sleep set_time set_wireless fs_write fs_delete fs_mkdir fs_rename fs_copy : Handler
  backup_save debug_attach debug_detach debug_continue debug_break debug_poll_events : Handler
  debug_read_mem debug_mem_map debug_threads debug_registers debug_search : Handler
  debug_modules debug_backtrace cheat_toggle debug_set_watchpoint : Handler
  debug_set_breakpoint debug_clear_breakpoint restore_save uninstall : Handler
  reboot_to_payload set_clocks debug_write_mem debug_write_registers : Handler
  debug_set_hw_bp_raw cheat_write_mem freeze_address unfreeze_address i2c_write : Handler
