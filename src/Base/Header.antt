-- ===== src/Base/Header.antt =====
-- The value of an HTTP header, as `HeaderValue::to_str` reads it.
use Prim.Native.String.{String}

-- Text, or bytes for which `to_str()` fails.
pub data Header : Type 0 where
  text : String → Header
  opaque : Header
