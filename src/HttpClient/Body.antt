-- ===== src/HttpClient/Body.antt =====
-- crates/octa-cache-http/src/client.rs and transport.rs: what the client makes of one response. The
-- kinds of errors stand for their messages.
use octa.Common.{
  ℕ, ◌+◌, Bool, true, false, not, ◌&&◌, ◌||◌, Option, none, some, List, [], ◌∷◌, ◌++◌, map, ◌==◌,
  nat_eq, ltb, leb, if◌then◌else◌, length, contains,
}
use octa.Text.{Str, str_eq, split}
use octa.Ledger.{saturating_add}
use octa.BlobDescriptor.{BlobDescriptor}
use octa.HttpClient.{
  remote, CacheResult, ok, err, and_then, Chunk, bytes, broken, Response, Attempt, complete, retry,
}

pub data BoundedReadError : Type 0 where
  transport : (retryable : Bool) → BoundedReadError
  over_limit : BoundedReadError

pub data BoundedRead : Type 0 where
  read : List ℕ → BoundedRead
  unread : BoundedReadError → BoundedRead

-- The loop of `read_bounded` over the chunks; `taken` are the bytes before.
unfoldable pub read_chunks : (limit : ℕ) → (taken : List ℕ) → List Chunk → BoundedRead
read_chunks limit taken [] = read taken
read_chunks limit taken (broken r ∷ rest) = unread (transport r)
read_chunks limit taken (bytes b ∷ rest) =
    let later = read_chunks limit (taken ++ b) rest in
    if ltb limit (length taken + length b) then unread over_limit else later

abbrev pub is_over : Option ℕ → ℕ → Bool
is_over none limit = false
is_over (some n) limit = ltb limit n

unfoldable pub read_bounded : Response → ℕ → BoundedRead
read_bounded r limit =
    if is_over r.content_length limit then unread over_limit else read_chunks limit [] r.body

abbrev pub header_version : Str
header_version = b'1' ∷ []

abbrev pub has_version : Option Str → Bool
has_version none = false
has_version (some v) = v == header_version

unfoldable pub accept_response : Response → CacheResult (Unit {0})
accept_response r = if has_version r.version then ok tt else err remote

-- `u8::eq_ignore_ascii_case`.
abbrev pub to_lower : ℕ → ℕ
to_lower c = if leb b'A' c && leb c b'Z' then c + 32 else c

abbrev pub is_whitespace : ℕ → Bool
is_whitespace c = leb 9 c && leb c 13 || c == 32 || c == 0x85 || c == 0xa0

abbrev pub trim_start : Str → Str
trim_start [] = []
trim_start (c ∷ s) = let rest = trim_start s in if is_whitespace c then rest else c ∷ s

abbrev pub trim_end : Str → Str
trim_end [] = []
trim_end (c ∷ s) = elim (trim_end s) [
  | [] ↦ if is_whitespace c then [] else c ∷ []
  | d ∷ t ↦ c ∷ d ∷ t
]

abbrev pub first_part : List Str → Option Str
first_part [] = none
first_part (p ∷ ps) = some p

abbrev pub media_type : Option Str → Option Str
media_type none = none
media_type (some v) = first_part (split b';' v)

abbrev pub is_media_type : Str → Option Str → Bool
is_media_type expected none = false
is_media_type expected (some v) = map to_lower (trim_end (trim_start v)) == map to_lower expected

unfoldable pub accept_content_type : Response → Str → CacheResult (Unit {0})
accept_content_type r expected =
    if is_media_type expected (media_type r.content_type) then ok tt else err remote

abbrev pub metadata_read : ℕ → BoundedRead → CacheResult (Attempt (ℕ × List ℕ))
metadata_read status (read b) = ok (complete (status, b))
metadata_read status (unread (transport true)) = ok (retry remote)
metadata_read status (unread (transport false)) = err remote
metadata_read status (unread over_limit) = err remote

unfoldable pub consume_metadata :
    (json : Str) → (limit : ℕ) → (accepted : List ℕ) → Response → CacheResult (Attempt (ℕ × List ℕ))
consume_metadata json limit accepted r = and_then (accept_response r) λ _.
    if not (contains accepted r.status)
    then err remote
    else if r.status == 404
    then ok (complete (404, []))
    else and_then (accept_content_type r json) λ _. metadata_read r.status (read_bounded r limit)

-- The loop of `consume_blob`; `staged` is what the private file holds.
unfoldable pub stage_chunks :
    BlobDescriptor → (staged : List ℕ) → List Chunk → CacheResult (Attempt (List ℕ))
stage_chunks blob staged [] =
    if length staged == blob.encoded_size_bytes then ok (complete staged) else ok (retry remote)
stage_chunks blob staged (broken retryable ∷ rest) =
    if retryable then ok (retry remote) else err remote
stage_chunks blob staged (bytes b ∷ rest) =
    let later = stage_chunks blob (staged ++ b) rest in
    if ltb blob.encoded_size_bytes (saturating_add (length staged) (length b))
    then err remote
    else later

abbrev pub differs : Option ℕ → ℕ → Bool
differs none n = false
differs (some m) n = not (m == n)

unfoldable pub consume_blob :
    (blob_type : Str) → BlobDescriptor → Response → CacheResult (Attempt (List ℕ))
consume_blob blob_type blob r = and_then (accept_response r) λ _.
    if not (r.status == 200)
    then err remote
    else and_then (accept_content_type r blob_type) λ _.
      if differs r.content_length blob.encoded_size_bytes
      then err remote
      else stage_chunks blob [] r.body

pub data WriteOutcome : Type 0 where
  written already_present conflict : WriteOutcome

unfoldable pub write_outcome : ℕ → Option WriteOutcome
write_outcome status =
    if status == 201
    then some written
    else if status == 204
    then some already_present
    else if status == 409
    then some conflict
    else none

unfoldable pub consume_write : Response → CacheResult (Attempt WriteOutcome)
consume_write r =
    and_then (accept_response r)
      λ _. elim (write_outcome r.status) [ none ↦ err remote | some o ↦ ok (complete o) ]
