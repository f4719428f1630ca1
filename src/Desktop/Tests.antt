-- ===== src/Desktop/Tests.antt =====
-- The theorems on the desktop's power at two outputs.
use wayvnc.Prelude.{◌≡◌, refl, true, false, [], ◌∷◌}
use wayvnc.Server.{
  Source, unknown, off, on, refused, output_acquire_power_on, output_release_power_on,
}
use wayvnc.Desktop.{acquire_power_on, acquire_each}
use wayvnc.Desktop.AllOutputs.{all_or_none, all_or_none-acquire_power_on}

abbrev screen : Source
screen = record { id = 7; power = on; acquired = true; managed = true }

-- An output without a power manager, as one that has just been added.
abbrev unmanaged : Source
unmanaged = record { id = 8; power = off; acquired = false; managed = false }

all_or_none-acquire_power_on_example :
    all_or_none (acquire_power_on (screen ∷ unmanaged ∷ [])) ≡ true
all_or_none-acquire_power_on_example = all_or_none-acquire_power_on (screen ∷ unmanaged ∷ [])

-- The first output loses its power control, although it had it before.
refused_for_all :
    acquire_power_on (screen ∷ unmanaged ∷ [])
    ≡ (refused, record screen { acquired = false; power = unknown } ∷ unmanaged ∷ [])
unfolding acquire_power_on acquire_each output_acquire_power_on output_release_power_on
refused_for_all = refl
