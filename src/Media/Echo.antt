-- ===== src/Media/Echo.antt =====
-- media_gtp_path_handle_echo_req of src/mod/gateways/mod_media/media_gtp_path.c: the response to an
-- echo request of GTP-U. `stale` is what the uninitialised buffer on the stack holds at an index.
pub mod Laws
pub mod Tests
use common_framework.Base.{
  ℕ, ◌+◌, ◌/◌, ◌%◌, Bool, not, ◌||◌, Option, none, some, List, [], ◌∷◌, ◌++◌, ◌==◌, if◌then◌else◌,
  length, take,
}

-- GTPU_FLAGS_PN and GTPU_FLAGS_S of the flags byte.
abbrev pub flag_pn : ℕ → Bool
flag_pn flags = flags % 2 == 1

abbrev pub flag_s : ℕ → Bool
flag_s flags = (flags / 2) % 2 == 1

-- The two bytes of htons(length) in memory.
abbrev pub htons : ℕ → List ℕ
htons length = (length / 256) % 256 ∷ length % 256 ∷ []

abbrev pub response_header : ℕ → ℕ → List ℕ
response_header flags length = flags ∷ 2 ∷ (htons length ++ (0 ∷ 0 ∷ 0 ∷ 0 ∷ []))

-- The two bytes of the sequence number, the one of the N-PDU number and the next extension.
unfoldable pub optional_part : (ℕ → ℕ) → (pn s : Bool) → List ℕ
optional_part stale pn s =
    (if s then stale 8 else 0) ∷ (if s then stale 9 else 0) ∷ (if pn then stale 10 else 0) ∷ 0 ∷ []

-- The message in the buffer and the value of `length`, for the two flags of the request.
unfoldable pub build_response : (ℕ → ℕ) → (pn s : Bool) → List ℕ × ℕ
build_response stale pn s =
    if pn || s
    then (
      response_header (48 + (if s then 2 else 0) + (if pn then 1 else 0)) 6
          ++ (optional_part stale pn s ++ (14 ∷ 0 ∷ [])),
      6,
    )
    else (response_header 48 2 ++ (14 ∷ 0 ∷ []), 2)

abbrev pub first_bytes : List ℕ × ℕ → List ℕ
first_bytes (message, length) = take length message

-- media_gtp_path_handle_echo_req for the flags and the type of the request: the bytes that
-- agc_gtp_add_message is given, if the function gets that far.
unfoldable pub handle_echo_req : (ℕ → ℕ) → (flags type : ℕ) → Option (List ℕ)
handle_echo_req stale flags type =
    if not (flags / 32 == 1)
    then none
    else if not (type == 1)
    then none
    else some (first_bytes (build_response stale (flag_pn flags) (flag_s flags)))
