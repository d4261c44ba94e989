-- ===== src/Api/Stream.antt =====
-- The streams of src/agc_api.c. `text` holds the bytes from `data` up to `end`, so `data_len` is its
-- length. `grow` says whether realloc succeeds, and `none` as a result is a write behind the buffer.
pub mod Written
pub mod Tests
use common_framework.Base.{
  ℕ, suc, ◌+◌, ◌-◌, Bool, true, not, ◌&&◌, Option, none, some, List, [], ◌∷◌, ◌++◌, Status, success,
  status_false, memerr, ltb, leb, ◌==◌, if◌then◌else◌, length,
}
use common_framework.Base.CString.{CString}

abbrev pub cmd_chunk_len : ℕ
cmd_chunk_len = 1024

pub record Stream : Type 0 where
  pub text : CString
  pub data_size : ℕ
  pub alloc_len : ℕ
  pub alloc_chunk : ℕ
  pub uuid : Option CString

-- agc_api_stand_stream
abbrev pub stand_stream : Stream
stand_stream = record {
  text = [];
  data_size = cmd_chunk_len;
  alloc_len = cmd_chunk_len;
  alloc_chunk = cmd_chunk_len;
  uuid = none;
}

-- The bytes before the first zero, which strlen counts.
abbrev pub before_zero : CString → CString
before_zero [] = []
before_zero (c ∷ s) = let rest = before_zero s in if c == 0 then [] else c ∷ rest

-- The copy to `end`, if it fits.
unfoldable pub put_text : Stream → CString → Stream × Status
put_text h data' =
    if ltb (h.data_size - length h.text) (suc (length data'))
    then (h, status_false)
    else (record h { text = before_zero (h.text ++ data') }, success)

-- The stream with more room.
abbrev pub grown : Stream → ℕ → Stream
grown h need =
    let size = h.data_size + need + h.alloc_chunk in record h { data_size = size; alloc_len = size }

unfoldable pub write_data : Bool → Stream → CString → Stream × Status
write_data grow h data' =
    if ltb (h.data_size - length h.text) (suc (length data')) && not (h.alloc_len == 0)
    then if grow then put_text (grown h (suc (length data'))) data' else (h, status_false)
    else put_text h data'

-- agc_api_stream_write, given what agc_vmprintf makes of the format.
unfoldable pub stream_write : Bool → Stream → Option CString → Stream × Status
unfolding write_data
stream_write grow h none = (h, status_false)
stream_write grow h (some data') =
    if leb h.data_size (length h.text) then (h, status_false) else write_data grow h data'

-- The copy and the zero behind it.
unfoldable pub put_raw : Stream → CString → Option (Stream × Status)
put_raw h data' =
    if ltb (length h.text + length data') h.data_size
    then some (record h { text = h.text ++ data' }, success)
    else none

-- agc_api_stream_raw_write
unfoldable pub stream_raw_write : Bool → Stream → CString → Option (Stream × Status)
stream_raw_write grow h data' =
    let need = length h.text + length data' in
    if leb h.data_size need
    then if grow
      then put_raw (record h { data_size = need + h.alloc_chunk }) data'
      else some (h, memerr)
    else put_raw h data'

-- A call of one of the two write functions.
pub data Write : Type 0 where
  formatted raw : CString → Write

unfoldable pub write_one : Write → Stream → Option (Stream × Status)
unfolding stream_write stream_raw_write
write_one (formatted s) h = some (stream_write true h (some s))
write_one (raw s) h = stream_raw_write true h s

abbrev pub if_success : Option (Stream × Status) → (Stream → Option Stream) → Option Stream
if_success (some (h, success)) next = next h
if_success o next = none

-- Calls in a row, as long as each succeeds.
unfoldable pub write_all : List Write → Stream → Option Stream
unfolding write_one
write_all [] h = some h
write_all (w ∷ ws) h = if_success (write_one w h) (write_all ws)
