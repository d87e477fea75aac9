-- ===== src/Pages/Cards.antt =====
-- web/admin/src/components/StatCard.tsx, and a panel: what the pages show once a query has loaded.
use konsul.Prelude.{Bool, true, false, String, Option, none, some, if◌then◌else◌}
use konsul.Prelude.Text.{nonempty}

-- The properties of `StatCard`; the trend is its text, green or red.
pub record StatCard : Type 0 where
  pub title : String
  pub value : String
  pub trend : Option (String × Bool)
  pub loading : Bool

-- What a card shows below its title: nothing of the value or the trend while it loads.
unfoldable pub card_lines : StatCard → Option (String × Option (String × Bool))
card_lines c = if c.loading then none else some (c.value, c.trend)

-- A panel shows placeholders while its query loads, then the data, or a text where there is none.
pub data Panel {ℓ} (A : Type ℓ) : Type ℓ where
  placeholders : Panel A
  shown : A → Panel A
  missing : String → Panel A

unfoldable pub panel {ℓ κ} :
    {A : Type ℓ} {B : Type κ} → Bool → String → (A → B) → Option A → Panel B
panel true text view data_ = placeholders
panel false text view (some a) = shown (view a)
panel false text view none = missing text

-- `t || u`.
abbrev pub or_text : String → Option String → String
or_text u none = u
or_text u (some t) = if nonempty t then t else u
