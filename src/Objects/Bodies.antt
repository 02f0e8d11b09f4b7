-- ===== src/Objects/Bodies.antt =====
-- internal/s3io/s3io.go: `GetRange`, `GetAll`, `Put` and `Exists`, `mapError` and the counters of
-- requests. What the SDK answers to a request is an argument.
pub mod Ranges
use remote_s3_bucket_plugin.Table.{Text}
use remote_s3_bucket_plugin.Decimal.{format_uint}
use remote_s3_bucket_plugin.Attrs.Meta.{Meta, Object}
use remote_s3_bucket_plugin.Entry.{Error, not_found, Fetched, Outcome, done, failed}
use remote_s3_bucket_plugin.Table.Laws.{any_eq}
use remote_s3_bucket_plugin.Objects.{Page}
use remote_s3_bucket_plugin.Config.Source.{is_empty}
use remote_s3_bucket_plugin.Config.Settings.{Settings}
use remote_s3_bucket_plugin.Prelude.{
  ℕ, ◌+◌, ◌-◌, Bool, true, false, not, ◌||◌, Option, none, some, List, [], ◌∷◌, ◌++◌, ◌==◌,
  if◌then◌else◌, length, set, codes, leb_ℤ, ℤ, pos,
}

pub record S3Stats : Type 0 where
  pub heads : ℕ
  pub lists : ℕ
  pub gets : ℕ
  pub puts : ℕ
  pub copies : ℕ
  pub deletes : ℕ
  pub errors : ℕ
  pub bytes_down : ℕ
  pub bytes_up : ℕ

-- An error of the SDK: one of its two types for a missing key, an error with a code, or another.
pub data ApiError : Type 0 where
  no_such_key missing_key : ApiError
  with_code : Text → Error → ApiError
  other_error : Error → ApiError

unfoldable pub is_not_found : ApiError → Bool
unfolding any_eq
is_not_found no_such_key = true
is_not_found missing_key = true
is_not_found (with_code code err) =
    any_eq code (codes "NoSuchKey" ∷ codes "NotFound" ∷ codes "404" ∷ [])
is_not_found (other_error err) = false

abbrev pub error_of : ApiError → Error
error_of no_such_key = not_found
error_of missing_key = not_found
error_of (with_code code err) = err
error_of (other_error err) = err

unfoldable pub map_error : ApiError → S3Stats → Error × S3Stats
unfolding is_not_found
map_error err st =
    if is_not_found err
    then (not_found, st)
    else (error_of err, record st { errors = st.errors + 1 })

-- What `GetObject` answers: an error, or a body, which may break off with an error.
pub data GetAnswer : Type 0 where
  denied : ApiError → GetAnswer
  streamed : List ℕ → Option Error → GetAnswer

-- `bytes=%d-%d`.
unfoldable pub range_header : ℕ → ℕ → Text
unfolding format_uint
range_header first last = codes "bytes=" ++ (format_uint first ++ 45 ∷ format_uint last)

-- The answers to `GetObject` by key and range.
abbrev pub GetObject : Type 0
GetObject = Text → Option Text → GetAnswer

abbrev pub count_get : S3Stats → S3Stats
count_get st = record st { gets = st.gets + 1 }

-- `io.Copy` passes on what it reads before an error.
unfoldable pub copied : GetAnswer → S3Stats → Fetched × S3Stats
unfolding map_error
copied (denied err) st =
    let (e, st') = map_error err st in (record { body = []; got = 0; failed = some e }, st')
copied (streamed body none) st = (
  record { body = body; got = length body; failed = none },
  record st { bytes_down = st.bytes_down + length body },
)
copied (streamed body (some err)) st = (
  record { body = body; got = length body; failed = some err },
  record st { bytes_down = st.bytes_down + length body; errors = st.errors + 1 },
)

unfoldable pub get_range : GetObject → S3Stats → Text → ℕ → ℕ → Fetched × S3Stats
unfolding range_header copied
get_range get st key off n =
    let fetched = copied (get key (some (range_header off (off + n - 1)))) (count_get st) in
    if n == 0 then (record { body = []; got = 0; failed = none }, st) else fetched

-- `ReadAll`.
unfoldable pub read_all : GetAnswer → S3Stats → Outcome (List ℕ) × S3Stats
unfolding map_error
read_all (denied err) st = let (e, st') = map_error err st in (failed e, st')
read_all (streamed body none) st =
    (done body, record st { bytes_down = st.bytes_down + length body })
read_all (streamed body (some err)) st =
    (failed err, record st { bytes_down = st.bytes_down + length body })

unfoldable pub get_all : GetObject → S3Stats → Text → Outcome (List ℕ) × S3Stats
unfolding read_all
get_all get st key = read_all (get key none) (count_get st)

-- What `ListObjectsV2` answers for one key at most.
pub data OnePage : Type 0 where
  no_page : ApiError → OnePage
  one_page : Page → OnePage

abbrev pub none_in {ℓ} : {A : Type ℓ} → List A → Bool
none_in [] = true
none_in (x ∷ xs) = false

unfoldable pub exists : OnePage → S3Stats → Outcome Bool × S3Stats
unfolding map_error
exists (no_page err) st =
    let (e, st') = map_error err (record st { lists = st.lists + 1 }) in (failed e, st')
exists (one_page p) st = (
  done (not (none_in p.contents) || not (none_in p.common_prefixes)),
  record st { lists = st.lists + 1 },
)

-- A request to store an object; an option that is not set is left to the SDK.
pub record PutRequest : Type 0 where
  pub key : Text
  pub body : List ℕ
  pub meta : Meta
  pub content_type : Option Text
  pub storage_class : Option Text
  pub sse : Option Text
  pub kms_key_id : Option Text
  pub acl : Option Text
  pub part_size : Option ℤ
  pub concurrency : Option ℕ

unfoldable pub if_set : Text → Option Text
if_set s = if is_empty s then none else some s

-- With the part size of a body below the threshold, which is sent in one piece.
unfoldable pub put_request : Settings → Text → List ℕ → ℕ → Meta → Text → PutRequest
unfolding if_set
put_request g key body size meta content_type =
    let small = not (leb_ℤ g.multipart_threshold (pos size)) in
    record {
      key = key;
      body = body;
      meta = meta;
      content_type = if_set content_type;
      storage_class = if_set g.storage_class;
      sse = if_set g.sse;
      kms_key_id = if_set g.kms_key_id;
      acl = if_set g.acl;
      part_size = if small then some g.part_size else none;
      concurrency = if small then some 1 else none;
    }

-- What the uploader answers: an error, or an ETag that may be missing.
pub data PutAnswer : Type 0 where
  not_stored : ApiError → PutAnswer
  kept : Option Text → PutAnswer

abbrev pub text_or_empty : Option Text → Text
text_or_empty none = []
text_or_empty (some s) = s

unfoldable pub stored_object : Text → ℕ → ℕ → Meta → PutAnswer → S3Stats → Outcome Object × S3Stats
unfolding map_error
stored_object key size now meta (not_stored err) st =
    let (e, st') = map_error err st in (failed e, st')
stored_object key size now meta (kept etag) st = (
  done (record { key = key; size = size; etag = text_or_empty etag; modified = now; meta = meta }),
  record st { bytes_up = st.bytes_up + size },
)

unfoldable pub put :
    (PutRequest → PutAnswer)
    → Settings
    → S3Stats
    → ℕ
    → Text
    → List ℕ
    → ℕ
    → Meta
    → Text
    → Outcome Object × S3Stats
unfolding put_request stored_object
put send g st now key body size meta content_type =
    stored_object key size now meta (send (put_request g key body size meta content_type))
      (record st { puts = st.puts + 1 })
