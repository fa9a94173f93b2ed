-- ===== src/Kernel/MemoryMap/Loading.antt =====
-- The map that `load_memory_map` starts with, as `reserve_phys` takes it.
use obliteration.Prelude.{
  ℕ, zero, suc, ◌+◌, ◌-◌, ◌*◌, ◌≡◌, ◌≤◌, ◌<◌, ◌⊎◌, refl, sym, ◌∙◌, ap, subst, List, [], ◌∷◌, ◌++◌,
  length, replicate, length-append, ◌==◌, arith, Bool-cases, inl, inr, Flow, done, panic, Ensures,
  Ensures-bind, Ensures-done, bind-done, done-injective, if_not-done, explicit,
}
use obliteration.Kernel.Dmem.Blocks.{Block, flat}
use obliteration.Kernel.Dmem.Conserve.{Chain, hits, covers}
use obliteration.Kernel.MemoryMap.{
  MapType, end_of_map, ram, reserved, PhysMap, Added, added, ignored, full, add_region, range,
  load_regions, check_physmap, load_physmap,
}
use obliteration.Kernel.MemoryMap.Regions.{Ascends, Result, add_region-Result}

-- The pairs and `last` behind the loop. With all of the 30 pairs in use, an entry without room leaves `last`
-- behind the array.
record Loaded (before : List Block) (r : List Block × ℕ) : Type 0 where
  order : Ascends 0 r.0
  few : length r.0 ≤ 30
  top : (r.1 + 2 ≡ 2 * length r.0) ⊎ (r.1 ≡ 60)
  keeps : (x : ℕ) → hits before x ≤ hits r.0 x

MapType-cases : (t : MapType) → (t ≡ end_of_map) ⊎ ((t ≡ reserved) ⊎ (t ≡ ram))
MapType-cases end_of_map = inl refl
MapType-cases reserved = inr (inl refl)
MapType-cases ram = inr (inr refl)

Ensures-weaken :
    {A : Type 0} {P Q : A → Type 0}
    → ((a : A) → P a → Q a)
    → (m : Flow A) → Ensures P m
    → Ensures Q m
Ensures-weaken f (done a) p = f a p
Ensures-weaken f (panic e) p = tt

unchanged_pairs :
    (bs : List Block)
    → 0 < length bs
    → length bs ≤ 30
    → Ascends 0 bs
    → Loaded bs (bs, 2 * length bs - 2)
unchanged_pairs bs some_pair few c = record {
  order = c;
  few = few;
  top = inl (omega arith);
  keeps = λ x. omega arith;
}

more_pairs :
    (bs bs' : List Block) (r : List Block × ℕ)
    → ((x : ℕ) → hits bs x ≤ hits bs' x)
    → Loaded bs' r
    → Loaded bs r
more_pairs bs bs' r h l = record {
  order = l.order;
  few = l.few;
  top = l.top;
  keeps = λ x. omega (arith, h x, l.keeps x);
}

some_pair-hits : (bs : List Block) (x : ℕ) → 0 < hits bs x → 0 < length bs
some_pair-hits [] x h = omega arith
some_pair-hits (b ∷ bs) x h = omega arith

entry_hit :
    (m : PhysMap) → 0 < m.len → covers (record { start = m.base; end = m.base + m.len }) m.base ≡ 1
entry_hit m h = ground (arith, h)

-- The rest of the loop behind one entry, where it holds for the rest of the entries.
load_rest-Loaded :
    (m : PhysMap) (ms : List PhysMap) (bs : List Block) (a : Added)
    → 0 < m.len
    → 0 < length bs
    → length bs ≤ 30
    → Ascends 0 bs
    → ((cs : List Block)
        → 0 < length cs
        → length cs ≤ 30
        → Ascends 0 cs
        → Ensures (Loaded cs) (load_regions ms cs))
    → Result m bs a
    → Ensures (Loaded bs) (elim a [
      | added bs' ↦ load_regions ms bs'
      | ignored bs' ↦ load_regions ms bs'
      | full bs' ↦ done (bs', 60)
    ])
load_rest-Loaded m ms bs (added cs) l n few c ih (order, fits, hit) =
    let some_pair = some_pair-hits cs m.base (omega (arith, hit m.base, entry_hit m l)) in
    Ensures-weaken (λ r q. more_pairs bs cs r (λ x. omega (arith, hit x)) q) (load_regions ms cs)
      (ih cs some_pair fits order)
load_rest-Loaded m ms bs (ignored cs) l n few c ih (same, _) =
    subst (λ t. Ensures (Loaded bs) (load_regions ms t)) (sym same) (ih bs n few c)
load_rest-Loaded m ms bs (full cs) l n few c ih (same, _) =
    subst (λ t. Loaded bs (t, 60)) (sym same)
      (record { order = c; few = few; top = inr refl; keeps = λ x. omega arith })

load_regions-Loaded :
    (ms : List PhysMap) (bs : List Block)
    → 0 < length bs
    → length bs ≤ 30
    → Ascends 0 bs
    → Ensures (Loaded bs) (load_regions ms bs)
unfolding load_regions
load_regions-Loaded [] bs n few c = unchanged_pairs bs n few c
load_regions-Loaded (m ∷ ms) bs n few c = elim (MapType-cases m.ty) [
  | inl ends ↦ rw ends (unchanged_pairs bs n few c)
  | inr (inl skips) ↦ rw skips (load_regions-Loaded ms bs n few c)
  | inr (inr takes) ↦ elim (Bool-cases (m.len == 0)) [
    | inl empty ↦ rw (takes, empty) (unchanged_pairs bs n few c)
    | inr some_bytes ↦
        let l : 0 < m.len = ground (arith, some_bytes) in
        rw (takes, some_bytes)
          (Ensures-bind (Loaded bs) (add_region m [] bs) _ λ a h.
            load_rest-Loaded m ms bs a l n few c (load_regions-Loaded ms)
              (Ensures-done (Result m bs) (add_region m [] bs) (add_region-Result m bs l few c) h))
  ]
]

Ascends-Chain : (low : ℕ) (bs : List Block) → 0 < low → Ascends low bs → Chain low bs
Ascends-Chain low [] h c = tt
Ascends-Chain low (b ∷ bs) h c =
    (c.0, omega (arith, c.0, c.1), Ascends-Chain b.end bs (omega (arith, c.0, c.1)) c.2)

length-flat : (bs : List Block) → length (flat bs) ≡ 2 * length bs
unfolding flat
length-flat [] = refl
length-flat (b ∷ bs) = omega (arith, length-flat bs)

length-replicate : (n : ℕ) → length {A = ℕ} (replicate n 0) ≡ n
length-replicate zero = refl
length-replicate (suc n) = ap suc (length-replicate n)

-- What `load_physmap` leaves: the array holds pairs in ascending order, each with some bytes.
pub record IsPhysmap (r : List ℕ × ℕ) : Type 0 where
  pub blocks : List Block
  pub array : r.0 ≡ flat blocks ++ replicate (60 - 2 * length blocks) 0
  pub size : length r.0 ≡ 60
  pub order : Chain 0 blocks
  pub last : (r.1 + 2 ≡ 2 * length blocks) ⊎ (r.1 ≡ 60)

check_physmap-IsPhysmap :
    (before bs : List Block) (last : ℕ) (r : List ℕ × ℕ)
    → Loaded before (bs, last)
    → check_physmap bs last ≡ done r
    → IsPhysmap r
unfolding check_physmap
check_physmap-IsPhysmap before [] last r l h = cc h
check_physmap-IsPhysmap before (b ∷ bs) last r l h =
    let (some_end, made) = if_not-done (b.end == 0) _ explicit h in
    let first : 0 < b.end = ground (arith, some_end) in
    subst IsPhysmap (done-injective made) (record {
      blocks = b ∷ bs;
      array = refl;
      size =
          length-append (flat (b ∷ bs)) (replicate (60 - 2 * length (b ∷ bs)) 0)
          ∙ omega (arith, length-flat (b ∷ bs), length-replicate (60 - 2 * length (b ∷ bs)), l.few);
      order =
          (omega arith, omega (arith, l.order.1, first), Ascends-Chain b.end bs first l.order.2);
      last = l.top;
    })

-- The loop of `load_memory_map` that ends without a panic leaves the array with pairs in ascending order,
-- none of which is empty, and zeros behind them, as `reserve_phys` needs it; `last` is the index of the last pair,
-- or it is 60, which is no index of the array.
pub load_physmap-IsPhysmap :
    (ms : List PhysMap) (r : List ℕ × ℕ) → load_physmap ms ≡ done r → IsPhysmap r
unfolding load_physmap
load_physmap-IsPhysmap ms r h =
    let (t, run, rest) = bind-done (load_regions ms (range 0 0 ∷ [])) _ h in
    let l =
      Ensures-done (Loaded (range 0 0 ∷ [])) (load_regions ms (range 0 0 ∷ []))
        (load_regions-Loaded ms (range 0 0 ∷ []) (omega arith) (omega arith)
          (omega arith, omega arith, tt))
        run in
    check_physmap-IsPhysmap (range 0 0 ∷ []) t.0 t.1 r l rest
