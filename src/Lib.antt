-- ===== src/Lib.antt =====
-- Verification library of cardputer-zero-os: the window agent, the greeter and its login helper, and the
-- polkit agent with its password prompt.
--
-- The window agent (window-agent/zero-window-agent.cpp) learns the open windows from the compositor
-- and serves them over a socket. The greeter (greeter/zero-greeter-wayland.cpp) is the login screen;
-- it passes a user name and a password over a pipe to its helper (greeter/zero-greeter-auth.cpp), which
-- runs as root, asks PAM, and starts the session. The polkit agent (polkit-agent/zero-polkit-agent.c)
-- answers polkit's requests for a password; it runs the prompt
-- (polkit-agent/zero-polkit-prompt-wayland.cpp) with the texts on its command line and reads the
-- password from its standard output.
--
--   Base               byte texts, Boolean tests on the native numbers, lists, decimal numbers; Int
--                      for C's int where it may be negative; Uses for what is acquired and released
--   Agent.Wire         encode, hex_value, decode, split_tabs
--   Agent.Stream       what it means to cut a stream into lines; no code of its own
--   Agent.State        Task, Client and the fields of WindowAgent; state_string, is_shell_task
--   Agent.Events       the listeners of the compositor's events, prune_closed
--   Agent.Lookup       find_task with strtol, active_task, shell_task
--   Agent.Commands     send, send_error, send_ok, send_snapshot, write_snapshot, activate,
--                      handle_command
--   Agent.Clients      read_client, flush_client
--   Agent.Loop         broadcast_snapshot, accept_client, close_client, the sweep over the clients
--   Agent.Run          run
--   Agent.Start        socket_path, ensure_parent_dir, init_wayland, init_socket, once, main
--   Accounts           struct passwd
--   Auth.Capability    shell_is_login_capable, user_is_login_capable, caller_is_allowed
--   Auth.Request       read_request
--   Auth.Conversation  pam_conv_callback
--   Auth.Helper        authenticate_user, run_and_wait, start_user_session, main
--   Draw               pixel, clear, the loops of fill_rect, draw_rect and draw_text, as the greeter and
--                      the prompt share them
--   Greeter.Users      load_users
--   Greeter.Login      write_all, trim_line, authenticate_and_start_session
--   Greeter.Screen     the fields of GreeterWindow; clamp_selection, reload_users, next_buffer, and
--                      render as far as it changes fields
--   Greeter.Keys       its key handlers, attempt_login, run_power_action
--   Greeter.Window     the other listeners, init, run
--   Greeter.Text       display_ascii, fit_text, display_identifier, fit_identifier
--   Greeter.Menu       the rows of draw_user_menu
--   Greeter.Canvas     fill_rect with its clamping
--   Greeter.Glyphs     kGlyphs, glyph_rows
--   Greeter.Brush      the colours, draw_text and its variants, the icons, draw_password
--   Greeter.Frame      draw_frame, draw_user_menu, draw_power_menu
--   Prompt.Canvas      fill_rect of the prompt
--   Prompt.Glyphs      its kGlyphs, glyph_rows
--   Prompt.Texts       its display_ascii, fit_text
--   Prompt.Frame       the fields of PromptWindow, and what its render draws
--   Prompt.Window      its key handlers, listeners, render and run
--   Prompt.Args        its command line
--   Prompt.Input       its listeners as they are called, create_buffer, init and main, with the objects
--   Polkit.Ask         prompt_for_response_wayland
--   Polkit.Identity    choose_identity, identity_label
--   Polkit.Session     initiate_authentication and the handlers of a session's signals
--   Polkit.Memory      what the above acquire and release, with auth_request_free
--   Polkit.Start       current_session_subject, main
--   Setup              registry_global, seat_capabilities, keyboard_keymap, create_anonymous_file,
--                      create_buffer and init of the greeter; the prompt has the same functions
--   Setup.Input        keyboard_keymap, keyboard_modifiers and wm_ping of the prompt over any xkbcommon
--   Tests              concrete runs
--
-- A std::string is the list of its bytes. A call that changes an object takes the object's fields as a
-- record and returns the new one. What is asked of the compositor, of polkit, of the file system or of
-- another program is a list (`requests`, `actions`, `effects`), oldest first. What the kernel, PAM,
-- polkit, the account database, the keyboard map and child processes answer is an argument: for the calls
-- on one descriptor a list of results in the order of the calls. A list of reads that ends stands for a
-- call that would block, in the window agent, and for the end of the file in the blocking reads of the
-- other programs.
--
-- A pixel buffer is a function of the index, and a write out of it is no result. What a window draws is
-- the list of its calls of clear and fill_rect; a list of calls is run on a buffer by the program's own
-- fill_rect, and read as a picture by the rectangles alone. The rounds of the prompt's loop are a list,
-- at whose end the connection is broken. The windows of the window agent are read as a map from ids,
-- which the compositor's events alone change.
--
-- Loops are structural, but for three. The loops over the lines of a client's input and over the
-- fields of a line have the length of the text plus one as fuel, and every round takes a byte away;
-- the digits of a number have the number as fuel, and every round divides it by ten. That the fuel is
-- enough is part of the theorems about the three loops.
--
-- Of polkit and GLib, Polkit.Session and Polkit.Memory use what they document of a cancelled operation:
-- polkit_agent_session_cancel completes the session, and g_cancellable_disconnect does not return within
-- the handler that it takes away.
--
-- Not modelled: what Wayland, xkbcommon, GLib and polkit do inside; what the clock shows; the scripts and
-- units. Numbers are unbounded: that the ids of the window agent and the rectangles of a drawing stay in
-- the range of an int is a theorem, and beyond it is out of scope. A copy of a password that is
-- overwritten in memory is cleared only, or just let go.
pub mod Base
pub mod Agent
pub mod Draw
pub mod Accounts
pub mod Auth
pub mod Greeter
pub mod Polkit
pub mod Prompt
pub mod Setup
pub mod Tests
