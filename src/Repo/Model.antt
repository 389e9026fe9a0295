-- ===== src/Repo/Model.antt =====
-- crates/dnfast-repo/src/model.rs.
use dnfast.Base.{Text, text, Bool, Option, none, some, List, [], ◌∷◌, ◌++◌, map}

pub data SourceKind : Type 0 where
  base_url metalink mirrorlist : SourceKind

-- `SourceKind::as_str`.
unfoldable pub kind_name : SourceKind → Text
kind_name base_url = text "baseurl"
kind_name metalink = text "metalink"
kind_name mirrorlist = text "mirrorlist"

pub record Repository : Type 0 where
  pub id : Text
  pub enabled : Bool
  pub baseurls : List Text
  pub metalink_url : Option Text  -- metalink
  pub mirrorlist_url : Option Text  -- mirrorlist
  pub origin : Text

abbrev source_of : SourceKind → Option Text → List (SourceKind × Text)
source_of kind none = []
source_of kind (some source) = (kind, source) ∷ []

abbrev pub sources : Repository → List (SourceKind × Text)
sources r =
    map (λ source. (base_url, source)) r.baseurls
    ++ source_of metalink r.metalink_url
    ++ source_of mirrorlist r.mirrorlist_url

abbrev first_source : List (SourceKind × Text) → Option (SourceKind × Text)
first_source [] = none
first_source (s ∷ rest) = some s

abbrev pub selected_source : Repository → Option (SourceKind × Text)
selected_source r = first_source (sources r)
