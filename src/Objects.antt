-- ===== src/Objects.antt =====
-- internal/s3io/s3io.go: `Head`, `List`, `ListAll` and `Copy`. What the SDK answers is an argument,
-- its errors after `mapError`; the request counters are left out.
pub mod Bodies
use remote_s3_bucket_plugin.Table.{Text, text_eq}
use remote_s3_bucket_plugin.Paths.{trim_prefix}
use remote_s3_bucket_plugin.Attrs.Meta.{Meta, Object}
use remote_s3_bucket_plugin.Entry.{Error, Outcome, done, failed, Uploaded}
use remote_s3_bucket_plugin.Multipart.{Part, copy_multipart}
use remote_s3_bucket_plugin.Prelude.{
  ℕ, ◌+◌, ◌*◌, ◌^◌, Bool, true, false, not, ◌&&◌, ◌||◌, Option, none, some, List, [], ◌∷◌, ◌++◌,
  ltb, leb, ◌==◌, if◌then◌else◌,
}

-- What `HeadObject` answers; a field of the SDK may be missing.
pub record HeadOutput : Type 0 where
  pub etag : Text
  pub content_length : Option ℕ
  pub last_modified : Option ℕ
  pub metadata : Meta

-- `strings.ToLower` of an ASCII text.
unfoldable pub to_lower : Text → Text
to_lower [] = []
to_lower (x ∷ xs) = (if leb 65 x && leb x 90 then x + 32 else x) ∷ to_lower xs

unfoldable pub lower : Meta → Meta
unfolding to_lower
lower [] = []
lower ((k, v) ∷ m) = (to_lower k, v) ∷ lower m

abbrev pub or_zero : Option ℕ → ℕ
or_zero none = 0
or_zero (some n) = n

unfoldable pub head : Text → Outcome HeadOutput → Outcome Object
unfolding lower
head key (failed err) = failed err
head key (done out) = done (record {
  key = key;
  size = or_zero out.content_length;
  etag = out.etag;
  modified = or_zero out.last_modified;
  meta = lower out.metadata;
})

-- An object of a page.
pub record Item : Type 0 where
  pub key : Text
  pub size : Option ℕ
  pub etag : Text
  pub modified : Option ℕ

pub record Page : Type 0 where
  pub common_prefixes : List Text
  pub contents : List Item

-- What `ListObjectsV2` answers to the requests of one listing: an error, the last page, or a page
-- with a token for the next request.
pub data Pages : Type 0 where
  refused_page : Error → Pages
  last_page : Page → Pages
  more_pages : Page → Pages → Pages

pub record ListEntry : Type 0 where
  pub name : Text
  pub is_dir : Bool
  pub size : ℕ
  pub etag : Text
  pub modified : ℕ

-- `strings.TrimSuffix(s, "/")`.
unfoldable pub trim_slash : Text → Text
trim_slash [] = []
trim_slash (x ∷ []) = if x == 47 then [] else x ∷ []
trim_slash (x ∷ y ∷ xs) = x ∷ trim_slash (y ∷ xs)

-- `strings.Contains(s, "/")`.
unfoldable pub has_slash : Text → Bool
has_slash [] = false
has_slash (x ∷ xs) = let rest = has_slash xs in x == 47 || rest

unfoldable pub directories : Text → List Text → List ListEntry
unfolding trim_slash
directories dir_key [] = []
directories dir_key (p ∷ ps) =
    let rest = directories dir_key ps in
    let name = trim_slash (trim_prefix p dir_key) in
    if text_eq name []
    then rest
    else record { name = name; is_dir = true; size = 0; etag = []; modified = 0 } ∷ rest

unfoldable pub files : Text → List Item → List ListEntry
unfolding has_slash
files dir_key [] = []
files dir_key (o ∷ os) =
    let rest = files dir_key os in
    let name = trim_prefix o.key dir_key in
    let e : ListEntry = record {
      name = name;
      is_dir = false;
      size = or_zero o.size;
      etag = o.etag;
      modified = or_zero o.modified;
    } in
    if text_eq name [] || has_slash name then rest else e ∷ rest

abbrev pub page_entries : Text → Page → List ListEntry
page_entries dir_key p = directories dir_key p.common_prefixes ++ files dir_key p.contents

-- `List` with a callback that takes every child: the children passed to it, and the error.
unfoldable pub list_children : Text → Pages → List ListEntry × Option Error
unfolding directories files
list_children dir_key (refused_page err) = ([], some err)
list_children dir_key (last_page p) = (page_entries dir_key p, none)
list_children dir_key (more_pages p rest) =
    let (es, err) = list_children dir_key rest in (page_entries dir_key p ++ es, err)

-- How `ListAll` ends, with the state of its callback and the number of keys passed to it. The loop
-- over a page may end the listing.
module _ {S : Type 0} where
  unfoldable pub visit : (S → Text → ℕ → S × Bool) → ℕ → List Item → ℕ → S → Bool × ℕ × S
  visit fn limit [] n s = (true, n, s)
  visit fn limit (o ∷ os) n s =
      let (s', more) = fn s o.key (or_zero o.size) in
      let rest = visit fn limit os (n + 1) s' in
      if not more
      then (false, n, s')
      else if not (limit == 0) && leb limit (n + 1)
      then (false, n + 1, s')
      else rest

  unfoldable pub list_loop : (S → Text → ℕ → S × Bool) → ℕ → Pages → ℕ → S → S × Option Error
  unfolding visit
  list_loop fn limit (refused_page err) n s = (s, some err)
  list_loop fn limit (last_page p) n s = ((visit fn limit p.contents n s).2, none)
  list_loop fn limit (more_pages p ps) n s =
      let (more, n', s') = visit fn limit p.contents n s in
      let rest = list_loop fn limit ps n' s' in if more then rest else (s', none)

  unfoldable pub list_all : (S → Text → ℕ → S × Bool) → ℕ → Pages → S → S × Option Error
  unfolding list_loop
  list_all fn limit ps s = list_loop fn limit ps 0 s

-- What the SDK answers to the requests of a copy; `single` is `CopyObject`.
pub record CopyAnswers : Type 0 where
  pub single : Option Error
  pub create : Option Error
  pub send : Part → Uploaded
  pub complete : List (Text × ℕ) → Option Error

abbrev pub max_single_copy : ℕ
max_single_copy = 5 * 2 ^ 30

-- The error of `Copy`.
unfoldable pub copy : CopyAnswers → ℕ → ℕ → Option Error
copy a part_size size =
    let large = (copy_multipart a.create a.send a.complete part_size size).error in
    if ltb max_single_copy size then large else a.single
