-- ===== src/JsonIpc/Format.antt =====
-- `jvprintf` of src/json-ipc.c and its buffer of 128 bytes.
use wayvnc.Prelude.{ℕ, ◌<◌, ◌≡◌, refl, none, some, arith, length, le→ltb, ne→==}
use wayvnc.Text.{Str}
use wayvnc.Json.{Json}
use wayvnc.JsonIpc.{jvprintf, error_printf}

pub jvprintf-long : (formatted : Str) → 128 < length formatted → jvprintf formatted ≡ none
unfolding jvprintf
jvprintf-long formatted h =
    rw (le→ltb (length formatted) 128 (omega arith), ne→== (length formatted) 128 (omega arith))
      refl

pub jvprintf-short :
    (formatted : Str) → length formatted < 128 → jvprintf formatted ≡ some formatted
unfolding jvprintf
jvprintf-short formatted h = ground arith

-- Setting an error reads past the buffer as soon as the formatted text has more than 128 bytes.
pub error_printf-long :
    (js : Json) (code : ℕ) (formatted : Str)
    → 128 < length formatted
    → error_printf js code formatted ≡ none
unfolding error_printf
error_printf-long js code formatted h = rw (jvprintf-long formatted h, error_printf) refl
