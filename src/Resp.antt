-- ===== src/Resp.antt =====
-- include/respValue.hpp: the values of the protocol. A value is a tag with a variant, and nothing
-- ties the two together but the code that builds it.
pub mod Decimal
pub mod Serializer
pub mod Emit
pub mod Output
pub mod Parser
pub mod Numbers
pub mod Reading
pub mod Nesting
pub mod RoundTrip
pub mod Streaming
pub mod Cuts
pub mod Rounds
pub mod Estimate
pub mod Typed
pub mod Returns
use tinycache.Prelude.{ℕ, suc, ◌+◌, Option, none, some, ℤ, List, [], ◌∷◌}
use tinycache.Prelude.Bytes.{Bytes}

pub data RespType : Type 0 where
  unknown simple_string error integer bulk_string null_bulk_string array null_array : RespType

mutual
  pub data RespValue : Type 0 where
    resp : RespType → RespData → RespValue

  -- The alternatives of the variant.
  pub data RespData : Type 0 where
    text : Bytes → RespData
    number : ℤ → RespData
    elements : RespArray → RespData

  pub data RespArray : Type 0 where
    nil : RespArray
    cons : RespValue → RespArray → RespArray

-- `std::get`, which throws at another alternative.
abbrev pub get_text : RespData → Option Bytes
get_text (text s) = some s
get_text _ = none

abbrev pub get_number : RespData → Option ℤ
get_number (number n) = some n
get_number _ = none

abbrev pub get_elements : RespData → Option RespArray
get_elements (elements xs) = some xs
get_elements _ = none

abbrev pub size : RespArray → ℕ
size nil = 0
size (cons v vs) = suc (size vs)

-- `push_back`
unfoldable pub push_back : RespArray → RespValue → RespArray
push_back nil w = cons w nil
push_back (cons v vs) w = cons v (push_back vs w)
