-- ===== src/Server/Attach.antt =====
-- Attaching to a Wayland display and detaching from it, in src/main.c.
use wayvnc.Prelude.{ℕ, ◌==◌, Bool, true, false, not, ◌||◌, Option, none, some, if◌then◌else◌}
use wayvnc.Server.{Source, Server, Result, wayvnc_start_capture_immediate}

-- `on_wayland_destroyed`
unfoldable pub on_wayland_destroyed : Server → Server
on_wayland_destroyed s = record s {
  attached = false;
  source = none;
  screencopy = none;
  display_source = none;
  next_frame = false;
  retry_timer = false;
  do_exit = s.do_exit || not s.start_detached;
}

abbrev pub detached : Server → Server
detached s = if s.attached then on_wayland_destroyed s else s

unfoldable pub on_detach : Server → Server
unfolding on_wayland_destroyed
on_detach s = detached s

-- What `wayland_attach` comes to: a source to capture, no connection, or a failure on the way.
pub data Attach : Type 0 where
  attached_to : Source → Attach
  no_connection no_source : Attach

unfoldable pub wayland_attach : Attach → Server → Server
unfolding on_wayland_destroyed
wayland_attach (attached_to src) s = record (detached s) {
  attached = true;
  source = some src;
  screencopy = some false;
}
wayland_attach no_connection s = detached s
wayland_attach no_source s = on_wayland_destroyed (detached s)

abbrev source_id : Option Source → Option ℕ
source_id none = none
source_id (some src) = some src.id

-- `on_attach`: the display is set up anew, then `client_init_wayland` reads `wayland` for each
-- client, and the capture starts if there are clients.
unfoldable pub on_attach : Bool → Attach → Server → Result
unfolding wayland_attach wayvnc_start_capture_immediate
on_attach start_ok outcome s =
    let t = wayland_attach outcome s in
    let u = record t { display_source = source_id t.source; next_frame = false } in
    if u.nr_clients == 0
    then some u
    else if u.attached
    then wayvnc_start_capture_immediate start_ok u
    else none
