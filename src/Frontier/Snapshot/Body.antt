-- ===== src/Frontier/Snapshot/Body.antt =====
-- What lies behind the header of a frontier's snapshot, and the frontiers that it can hold.
use mathlib.Core.Path.{subst}
use rs_core.Prelude.{
  ℕ, ◌+◌, ◌-◌, ◌*◌, ◌^◌, ◌≤◌, ◌<◌, ◌≡◌, refl, sym, ap, ap₂, ◌∙◌, List, [], ◌∷◌, ◌++◌, Option, none,
  arith, length, ◌==◌, ltb, leb, not, ◌||◌, true, false, eq→==, le→ltb, append-nil, replicate,
}
use rs_core.Outcome.{Outcome, ok, >>=-ok, ensure-ok}
use rs_core.Prelude.Halves.{pow_cut, pow_pos}
use native.Mathlib.Nat.{mul-le-mul_left}
use rs_core.Assoc.{All}
use rs_core.Bytes.{IsByte}
use rs_core.Wire.{FrInt}
use rs_core.Field.{Fr}
use rs_core.Geometry.{tree_capacity, tree_capacity_lem, zero_roots, lt_of_tree_capacity}
use rs_core.Frontier.{NotesFrontier, new}
use rs_core.Frontier.Snapshot.{read_frontier, read_slots, slots_bytes, is_empty}
use rs_core.Frontier.Snapshot.Slots.{Matches, read_slots-slots_bytes, read_slots_ok}

-- The frontiers that `new` and the appends lead to: the geometry of `new`, and a node for each set
-- bit of the leaf count.
pub record IsFrontier {F : Type 0} ⦃fr : Fr F⦄ (t : NotesFrontier F) : Type 0 where
  pub positive : 0 < t.shard_height
  pub below : t.shard_height < t.depth
  pub fits : t.depth < 64
  pub size : t.shard_size ≡ 2 ^ t.shard_height
  pub zeros : t.zeroes ≡ zero_roots t.depth
  pub room : t.leaf_count ≤ 2 ^ t.depth
  pub slots : length t.frontier ≡ t.depth + 1
  pub matching : Matches t.frontier t.leaf_count

is_empty_ok : (bytes : List ℕ) → is_empty bytes ≡ true → bytes ≡ []
is_empty_ok [] e = refl
is_empty_ok (b ∷ bytes) e = cc

pub count_fits : (d n : ℕ) → d < 64 → n ≤ 2 ^ d → n < 256 ^ 8
count_fits d n c h =
    let cut : 2 ^ 63 ≡ 2 ^ d * 2 ^ (63 - d) = pow_cut 63 d (63 - d) (omega arith) in
    let more : 2 ^ d * 1 ≤ 2 ^ d * 2 ^ (63 - d) = mul-le-mul_left (2 ^ d) (pow_pos (63 - d)) in
    omega arith

pub assemble :
    {m m' c c' k k' rest rest' : List ℕ} {v v' d d' s s' r r' : ℕ}
    → m ≡ m'
    → v ≡ v'
    → d ≡ d'
    → s ≡ s'
    → r ≡ r'
    → c ≡ c'
    → k ≡ k'
    → rest ≡ rest'
    → m ++ (v ∷ d ∷ s ∷ r ∷ (c ++ (k ++ rest))) ≡ m' ++ (v' ∷ d' ∷ s' ∷ r' ∷ (c' ++ (k' ++ rest')))
assemble e1 e2 e3 e4 e5 e6 e7 e8 = cc

module _ {F : Type 0} ⦃fr : Fr F⦄ ⦃int : FrInt F⦄ where
  new_lem :
      (d sh : ℕ) (p : 0 < sh) (q : sh < d) (c : d < 64)
      → new {F = F} d sh
        ≡ ok (record {
          depth = d;
          shard_height = sh;
          shard_size = 2 ^ sh;
          leaf_count = 0;
          frontier = replicate (d + 1) none;
          zeroes = zero_roots d;
        })
  unfolding new
  new_lem d sh p q c =
      let good : (sh == 0 || leb d sh) ≡ false = ground arith in
      rw good (rw (tree_capacity_lem sh (omega arith), tree_capacity_lem d c))

  -- A frontier of the geometry that `new` sets up.
  abbrev built : ℕ → ℕ → ℕ → List (Option F) → NotesFrontier F
  built d sh n slots = record {
    depth = d;
    shard_height = sh;
    shard_size = 2 ^ sh;
    leaf_count = n;
    frontier = slots;
    zeroes = zero_roots d;
  }

  new_ok :
      (d sh : ℕ) {t : NotesFrontier F}
      → new d sh ≡ ok t
      → (0 < sh) × (sh < d) × (d < 64) × (t ≡ built d sh 0 (replicate (d + 1) none))
  unfolding new
  new_ok d sh {t} h =
      let (good, h1) = ensure-ok (not (sh == 0 || leb d sh)) _ h in
      let (size, e, h2) = >>=-ok _ (tree_capacity sh) h1 in
      let (capacity, e', h3) = >>=-ok _ (tree_capacity d) h2 in
      let below : sh < d = ground arith in
      let positive : 0 < sh = ground arith in
      let fits : d < 64 = lt_of_tree_capacity d capacity e' in
      let same : ok size ≡ ok (2 ^ sh) = sym e ∙ tree_capacity_lem sh (omega arith) in
      (positive, below, fits, (cc))

  pub read_frontier-slots_bytes :
      (t : NotesFrontier F)
      → IsFrontier t
      → read_frontier t.depth t.shard_height t.leaf_count
          (length t.frontier)
          (slots_bytes t.frontier)
        ≡ ok t
  unfolding read_frontier
  read_frontier-slots_bytes t w =
      let whole : slots_bytes t.frontier ≡ slots_bytes t.frontier ++ [] =
        sym (append-nil (slots_bytes t.frontier)) in
      rw
        (
          new_lem t.depth t.shard_height w.positive w.below w.fits,
          tree_capacity_lem t.depth w.fits,
          le→ltb (2 ^ t.depth) t.leaf_count w.room,
          eq→== (length t.frontier) (t.depth + 1) w.slots,
          ap (read_slots (length t.frontier) 0 t.leaf_count t.leaf_count) whole
              ∙ read_slots-slots_bytes t.frontier 0 t.leaf_count t.leaf_count [] w.matching,
        )
        (ap₂ (λ (k : ℕ) (zs : List F). ok (record t { shard_size = k; zeroes = zs })) (sym w.size)
          (sym w.zeros))

  pub read_frontier_ok :
      (d sh n k : ℕ) (rest : List ℕ) {t : NotesFrontier F}
      → All IsByte rest
      → read_frontier d sh n k rest ≡ ok t
      → IsFrontier t
        × (t.depth ≡ d)
        × (t.shard_height ≡ sh)
        × (t.leaf_count ≡ n)
        × (length t.frontier ≡ k)
        × (rest ≡ slots_bytes t.frontier)
  unfolding read_frontier
  read_frontier_ok d sh n k rest {t} b h =
      let (tree, made, h1) = >>=-ok _ (new d sh) h in
      let (capacity, cap, h2) = >>=-ok _ (tree_capacity d) h1 in
      let (room, h3) = ensure-ok (not (ltb capacity n)) _ h2 in
      let (count, h4) = ensure-ok (k == d + 1) _ h3 in
      let ((slots, rest'), read, h5) = >>=-ok _ (read_slots k 0 n n rest) h4 in
      let (end, h6) = ensure-ok (is_empty rest') _ h5 in
      let (p, q, c, tree') = new_ok d sh made in
      let (cut, levels, fit) = read_slots_ok k 0 n n rest b read in
      let e : built d sh n slots ≡ t =
        ap (λ (s : NotesFrontier F). record s { leaf_count = n; frontier = slots }) (sym tree')
        ∙ (cc) in
      let full : ◌≡◌ {A = Outcome ℕ} (ok capacity) (ok (2 ^ d)) = sym cap ∙ tree_capacity_lem d c in
      let full' : capacity ≡ 2 ^ d = (cc) in
      let room' : n ≤ 2 ^ d = ground arith in
      let levels' : length slots ≡ d + 1 = ground arith in
      subst
        (λ (t : NotesFrontier F).
          IsFrontier t
          × (t.depth ≡ d)
          × (t.shard_height ≡ sh)
          × (t.leaf_count ≡ n)
          × (length t.frontier ≡ k)
          × (rest ≡ slots_bytes t.frontier))
        e
        (
          record {
            positive = p;
            below = q;
            fits = c;
            size = refl;
            zeros = refl;
            room = room';
            slots = levels';
            matching = fit;
          },
          refl,
          refl,
          refl,
          levels,
          cut
              ∙ ap (λ (s : List ℕ). slots_bytes slots ++ s) (is_empty_ok rest' end)
              ∙ append-nil (slots_bytes slots),
        )
