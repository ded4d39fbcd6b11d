-- ===== src/Compositor/Failure.antt =====
-- The list of live compositors after a creation that fails: the error exits of `coder_dlp_create` in
-- coder-dlp-compositor/src/compositor.c.
use coder_desktop_linux.ActiveList.{ActiveList}
