-- ===== src/Spice/Release.antt =====
-- src/spice.c: the records that tell what to give back once the Spice server is done with a command.
mod Circulation
mod Laws
mod Tests
use x11spice.Prelude.{ℕ, Bool, true, false, ◌++◌, Option, none, some, List, [], ◌∷◌, if◌then◌else◌}
use x11spice.Display.ShmCache.{SystemCall, free}
use x11spice.Display.Image.{ShmImage, Display, destroy_shm_image}

-- `spice_release_t`: RELEASE_SHMI with the image, RELEASE_MEMORY with the address.
pub data Release : Type 0 where
  release_shmi : ShmImage → Release
  release_memory : ℕ → Release

-- The record, or NULL where there is no memory for it.
unfoldable pub spice_create_release : Bool → Release → Option Release
spice_create_release malloc r = if malloc then some r else none

-- The record itself is freed too, which the log leaves out.
unfoldable pub spice_free_release : Option Release → Display → Display
unfolding destroy_shm_image
spice_free_release none d = d
spice_free_release (some (release_shmi i)) d = destroy_shm_image d i
spice_free_release (some (release_memory p)) d = record d { calls = d.calls ++ free p ∷ [] }

-- The server is done with a command.
unfoldable pub release_resource : Option Release → Display → Display
unfolding spice_free_release
release_resource r d = spice_free_release r d

-- The server is done with the configuration of the monitors.
unfoldable pub async_complete : Option Release → Display → Display
unfolding spice_free_release
async_complete r d = spice_free_release r d
