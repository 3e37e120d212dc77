-- ===== src/Replay/Source.antt =====
-- replay/data_source.rs, `BufferedDataSource`: the frames that a replay yields, in order.
use ai_systems_verification.Base.{
  ℕ, ◌+◌, ◌-◌, ◌≡◌, Bool, true, false, List, [], Option, none, some, if◌then◌else◌, if_true, ap,
  ◌∙◌, get_elem?, length,
}
use mathlib.Core.Option

-- The exchange and the kind of a frame are their codes.
pub record DataFrame : Type 0 where
  pub timestamp : ℕ
  pub exchange : ℕ
  pub frame_type : ℕ
  pub payload : List ℕ

pub record BufferedDataSource : Type 0 where
  pub frames : List DataFrame
  pub index : ℕ
  pub active : Bool

pub new : List DataFrame → BufferedDataSource
new frames = record { frames = frames; index = 0; active = true }

pub inactive : BufferedDataSource
inactive = record { frames = []; index = 0; active = false }

pub set_active : BufferedDataSource → Bool → BufferedDataSource
set_active s active = record s { active = active }

unfoldable pub remaining : BufferedDataSource → ℕ
remaining s = length s.frames - s.index

unfoldable pub next : BufferedDataSource → Option DataFrame × BufferedDataSource
next s =
    let frame = get_elem? s.frames s.index in
    if s.active
    then (frame, elim frame [ none ↦ s | some _ ↦ record s { index = s.index + 1 } ])
    else (none, s)

unfoldable pub peek : BufferedDataSource → Option DataFrame
peek s = if s.active then get_elem? s.frames s.index else none

-- The default methods `has_next` and `peek_timestamp` of the trait.
unfoldable pub has_next : BufferedDataSource → Bool
unfolding peek
has_next s = elim (peek s) [ none ↦ false | some _ ↦ true ]

unfoldable pub peek_timestamp : BufferedDataSource → Option ℕ
unfolding peek
peek_timestamp s = Option.map (λ (f : DataFrame). f.timestamp) (peek s)

unfoldable pub reset : BufferedDataSource → BufferedDataSource
reset s = record s { index = 0 }

module _ (s : BufferedDataSource) where
  pub peek_frame :
      (f : DataFrame)
      → s.active ≡ true
      → get_elem? s.frames s.index ≡ some f
      → peek_timestamp s ≡ some f.timestamp
  unfolding peek_timestamp peek
  peek_frame f on here = ap (Option.map (λ (f : DataFrame). f.timestamp)) (if_true on _ _ ∙ here)

  pub peek_end : s.active ≡ true → get_elem? s.frames s.index ≡ none → peek_timestamp s ≡ none
  unfolding peek_timestamp peek
  peek_end on here = ap (Option.map (λ (f : DataFrame). f.timestamp)) (if_true on _ _ ∙ here)

  pub next_frame :
      (f : DataFrame)
      → s.active ≡ true
      → get_elem? s.frames s.index ≡ some f
      → next s ≡ (some f, record s { index = s.index + 1 })
  unfolding next
  next_frame f on here = if_true on _ _ ∙ rw here
