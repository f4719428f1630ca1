-- ===== src/JsonIpc/Tests.antt =====
-- The protocol of src/json-ipc.c over the sample implementation of JSON.
use wayvnc.Prelude.{◌≡◌, none, arith, replicate}
use wayvnc.Json.Sample.{sample}
use wayvnc.JsonIpc.{error_printf}
use wayvnc.JsonIpc.Format.{error_printf-long}

error_printf-long_example : error_printf sample 22 (replicate 200 b'x') ≡ none
error_printf-long_example = error_printf-long sample 22 (replicate 200 b'x') (omega arith)
