-- ===== src/LruTable.antt =====
-- ChampSim/inc/msl/lru_table.h: `lru_table<T, SetProj, TagProj>`, a set-associative table that
-- replaces the block of a set that was used least recently. `access_count` is 64 bits wide, and taken
-- not to wrap around.
pub mod Search
pub mod Keys
pub mod Fill
pub mod Touch
pub mod Sizes
mod Tests
use cs230_branch_predictor.Prelude.{
  ℕ, zero, suc, ◌+◌, ◌-◌, ◌*◌, ◌%◌, ◌^◌, Bool, not, ◌&&◌, ◌||◌, ltb, leb, ◌==◌, same, Option, none,
  some, if◌then◌else◌, update, bit_and,
}
use cs230_branch_predictor.Prelude.Search.{find_first}

-- The template arguments: the two projections, to numbers, and the value that `T{}` makes.
pub record Projections (T : Type 0) : Type 0 where
  pub set_projection : T → ℕ
  pub tag_projection : T → ℕ
  pub initial : T

-- `block_t`
pub record Block (T : Type 0) : Type 0 where
  pub last_used : ℕ
  pub value : T

pub record LruTable (T : Type 0) : Type 0 where
  pub num_set : ℕ
  pub num_way : ℕ
  pub access_count : ℕ
  pub block : ℕ → Block T

-- The exceptions of the constructor.
pub data SizeError : Type 0 where
  sets_overflow ways_overflow sets_not_positive sets_not_power_of_two : SizeError

pub data Result (A : Type 0) : Type 0 where
  ok : A → Result A
  throws : SizeError → Result A

abbrev pub is_valid : {T : Type 0} → Block T → Bool
is_valid x = ltb 0 x.last_used

module _ {T : Type 0} (p : Projections T) where
  abbrev pub unused : Block T
  unused = record { last_used = 0; value = p.initial }

  abbrev pub empty : ℕ → ℕ → LruTable T
  empty sets ways = record { num_set = sets; num_way = ways; access_count = 0; block = λ i. unused }

  -- The constructor. A size that `difference_type` cannot hold fails the comparison with its cast.
  unfoldable pub make : ℕ → ℕ → Result (LruTable T)
  make sets ways =
      if leb (2 ^ 63) sets
      then throws sets_overflow
      else if leb (2 ^ 63) ways
      then throws ways_overflow
      else if leb sets 0
      then throws sets_not_positive
      else if not (bit_and sets (sets - 1) == 0)
      then throws sets_not_power_of_two
      else ok (empty sets ways)

  -- The begin of `get_set_span`; the span has `num_way` blocks.
  abbrev pub set_begin : T → LruTable T → ℕ
  set_begin elem t = p.set_projection elem % t.num_set * t.num_way

  abbrev pub has_tag : ℕ → Block T → Bool
  has_tag tag x = p.tag_projection x.value == tag

  abbrev pub match_func : T → Block T → Bool
  match_func elem x = is_valid x && has_tag (p.tag_projection elem) x

  -- The comparison of `match_and_check`.
  abbrev pub less : ℕ → Block T → Block T → Bool
  less tag x y =
      not (is_valid x)
      || (is_valid y
          && ((not (has_tag tag x) && has_tag tag y)
              || (same (has_tag tag x) (has_tag tag y) && ltb x.last_used y.last_used)))

  abbrev pub find_match : T → LruTable T → Option ℕ
  find_match elem t = find_first (λ j. match_func elem (t.block j)) t.num_way (set_begin elem t)

  abbrev pub hit_at : LruTable T → Option ℕ → LruTable T × Option T
  hit_at t none = (t, none)
  hit_at t (some i) = (
    record t {
      access_count = t.access_count + 1;
      block = update t.block i (record (t.block i) { last_used = t.access_count + 1 });
    },
    some (t.block i).value,
  )

  unfoldable pub check_hit : T → LruTable T → LruTable T × Option T
  check_hit elem t = hit_at t (find_match elem t)

  -- `std::minmax_element`, as one pass over the span that keeps the least and the greatest so far.
  unfoldable pub minmax_element : ℕ → (ℕ → Block T) → ℕ → ℕ → ℕ → ℕ → ℕ × ℕ
  minmax_element tag block zero i least greatest = (least, greatest)
  minmax_element tag block (suc rounds) i least greatest =
      minmax_element tag block rounds (i + 1)
        (if less tag (block i) (block least) then i else least)
        (if less tag (block i) (block greatest) then greatest else i)

  abbrev pub write_block : T → LruTable T → ℕ → LruTable T
  write_block elem t i = record t {
    access_count = t.access_count + 1;
    block = update t.block i (record { last_used = t.access_count + 1; value = elem });
  }

  -- The block that `fill` writes: the greatest if it has the tag, else the least.
  unfoldable pub fill_position : T → LruTable T → ℕ
  fill_position elem t =
      let begin = set_begin elem t in
      let tag = p.tag_projection elem in
      let (miss, hit) = minmax_element tag t.block (t.num_way - 1) (begin + 1) begin begin in
      if has_tag tag (t.block hit) then hit else miss

  unfoldable pub fill : T → LruTable T → LruTable T
  fill elem t = if t.num_way == 0 then t else write_block elem t (fill_position elem t)

  abbrev pub invalidate_at : LruTable T → Option ℕ → LruTable T × Option T
  invalidate_at t none = (t, none)
  invalidate_at t (some i) = (record t { block = update t.block i unused }, some (t.block i).value)

  unfoldable pub invalidate : T → LruTable T → LruTable T × Option T
  invalidate elem t = invalidate_at t (find_match elem t)
