-- ===== src/Audit/Shown.antt =====
-- modules/audit/presentation.ts: everything that the audit history shows is allowed.
use Prim.Native.String.{String}
use mathlib.Core.Option
use text.Mathlib.Text.{◌==◌ as str_eq}
use scope_is_team_management.Base.{
  ◌≡◌, ◌<◌, ◌⊎◌, Option, some, List, ◌++◌, Memᴰ, Text, codes, take, length,
}
use scope_is_team_management.Audit.{MetaValue, flag, number, words, balances, Metadata}
use scope_is_team_management.Audit.Presentation.{
  Display, shown_flag, shown_number, shown_text, meta_value,
}

-- What a stored value may be shown as: a flag as itself, a number as itself, a text as itself or,
-- over 80 units, cut to 77 with dots; balances not at all.
abbrev pub Shows : MetaValue → Display → Type 0
Shows (flag b) d = d ≡ shown_flag b
Shows (number n) d = d ≡ shown_number n
Shows (words t) d =
    (d ≡ shown_text t) ⊎ ((80 < length t) × (d ≡ shown_text (take 77 t ++ codes "...")))
Shows (balances _) d = ⊥

-- If a display comes out, it shows the value.
abbrev IsShown : Option MetaValue → Option Display → Type 0
IsShown value display =
    (d : Display) → display ≡ some d → (v : MetaValue) × (value ≡ some v) × Shows v d

-- A field that may be shown of metadata: its key has a value there, and the value may show so.
abbrev pub IsShownField : Metadata → Text × Display → Type 0
IsShownField metadata (key, display) =
    (v : MetaValue) × (meta_value key metadata ≡ some v) × Shows v display

-- Every field of a list has a key of a list and may be shown.
abbrev AllShown : List Text → Metadata → List (Text × Display) → Type 0
AllShown keys metadata fields =
    (f : Text × Display) → Memᴰ f fields → Memᴰ f.0 keys × IsShownField metadata f
