-- ===== src/Mounts/Lines.antt =====
-- The lines of the kernel, and what `IsMounted` reads in them.
use remote_s3_bucket_plugin.Table.{Text}
use remote_s3_bucket_plugin.Config.Source.{space_width, is_empty}
use remote_s3_bucket_plugin.Mounts.Escaped.{escape}
use remote_s3_bucket_plugin.Prelude.{◌≡◌, Bool, false, not, ◌||◌, ◌==◌, List, [], ◌∷◌, ◌++◌}

unfoldable pub has_space : Text → Bool
has_space [] = false
has_space (x ∷ s) = let rest = has_space s in not (space_width (x ∷ s) == 0) || rest

-- What a field of the table is made of: bytes, of which none starts a whitespace character.
unfoldable pub IsWord : Text → Type 0
IsWord w = (is_empty w ≡ false) × (has_space w ≡ false)

-- A line of the table: four fields, the mountpoint, and the rest.
pub record Row : Type 0 where
  pub id : Text
  pub parent : Text
  pub device : Text
  pub root : Text
  pub path : Text
  pub rest : Text

unfoldable pub line_of : Row → Text
unfolding escape
line_of r =
    r.id
    ++ 32 ∷ (r.parent ++ 32 ∷ (r.device ++ 32 ∷ (r.root ++ 32 ∷ (escape r.path ++ 32 ∷ r.rest))))

pub record IsRow (r : Row) : Type 0 where
  pub id : IsWord r.id
  pub parent : IsWord r.parent
  pub device : IsWord r.device
  pub root : IsWord r.root
  pub path : IsWord (escape r.path)

unfoldable pub AllRows : List Row → Type 0
AllRows [] = Unit
AllRows (r ∷ rs) = IsRow r × AllRows rs
