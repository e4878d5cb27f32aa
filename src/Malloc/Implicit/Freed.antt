-- ===== src/Malloc/Implicit/Freed.antt =====
-- A block of mm-gback-implicit.c freed in front of a sequence, and sequences with one block marked.
use computer_systems_project.Base.{
  ℕ, ◌+◌, ◌-◌, ◌*◌, ◌^◌, ◌≤◌, ◌<◌, ◌≡◌, ◌∙◌, refl, sym, ap, subst, inl, Bool, true, false, List, [],
  ◌∷◌, arith, ◌==◌, eq_of_==,
}
use computer_systems_project.Malloc.Blocks.{BoundaryTag}
use computer_systems_project.Malloc.Implicit.{TagMap, wsize, coalesce, mark_block_free, blk_size}
use computer_systems_project.Malloc.Implicit.Spec.{
  Laid, Merged, after, words, free_block, glue, glue_size, collapse, mark_free, in_use,
}
use computer_systems_project.Malloc.Implicit.Write.{
  with_tags, with_tags-outside, Laid-with_tags, set_header_and_footer-with_tags,
}
use computer_systems_project.Malloc.Implicit.Place.{Laid-cons}
use computer_systems_project.Malloc.Implicit.Coalesce.{coalesce_right, coalesce_left}
use computer_systems_project.Malloc.Implicit.Merged.{collapse_apart}

-- The block at `q` freed: where it is then, and the tags.
abbrev pub freed : ℕ → TagMap → ℕ × TagMap
freed q t = coalesce q (mark_block_free q (blk_size t q) t)

-- What is in front of the block at `p` is in use.
abbrev pub Behind : TagMap → ℕ → Type 0
Behind t p = (t (p - wsize)).inuse ≡ true

-- The address is `q`, the blocks from `p` on are `bs`, and nothing below has changed.
abbrev pub Leaves : ℕ → TagMap → ℕ → List BoundaryTag → ℕ × TagMap → Type 0
Leaves p t q bs r = (r.0 ≡ q) × Laid r.1 p bs × ((a : ℕ) → a < p → r.1 a ≡ t a)

pub elsewhere :
    (q p : ℕ) (t : TagMap) (bs : List BoundaryTag) {a a' : ℕ}
    → a ≡ a'
    → Leaves p t a bs (freed q t)
    → Leaves p t a' bs (freed q t)
elsewhere q p t bs e h = (h.0 ∙ e, h.1, h.2)

pub freed_tags :
    (q : ℕ) (t : TagMap) (b : BoundaryTag)
    → t q ≡ b
    → b.size < 2 ^ 30
    → freed q t ≡ coalesce q (with_tags q b.size false t)
freed_tags q t b e low =
    ap (λ (c : BoundaryTag). coalesce q (mark_block_free q c.size t)) e
    ∙ ap (λ u. coalesce q u) (set_header_and_footer-with_tags q b.size false t low)

-- The block at `p`, freed, behind a block in use.
pub free_here :
    (p : ℕ) (t : TagMap) (b : BoundaryTag) (bs : List BoundaryTag)
    → 4 ≤ p
    → Behind t p
    → Laid t p (b ∷ bs)
    → Merged bs
    → words (b ∷ bs) < 2 ^ 30
    → Leaves p t p (collapse (free_block b.size ∷ bs)) (freed p t)
free_here p t b bs room behind h merged low =
    let size : ℕ = b.size in
    let w : TagMap = with_tags p size false t in
    let same = with_tags-outside p size false t (omega (arith, h.0)) in
    let (at, laid, below) =
      coalesce_right p size w bs
        (ap (λ (c : BoundaryTag). c.inuse) (same (p - wsize) (inl (omega (arith, room)))) ∙ behind)
        (Laid-with_tags t p size false bs h.0 h.3) low in
    subst (Leaves p t p (collapse (free_block size ∷ bs)))
      (sym (freed_tags p t b h.1 (omega (arith, low))))
      (
        at,
        subst (λ cs. Laid (coalesce p w).1 p (glue (free_block size) cs))
            (sym (collapse_apart bs merged)) laid,
        λ a l. below a l ∙ same a (inl l),
      )

-- The block behind a free block at `p`, freed.
pub free_next :
    (p m : ℕ) (t : TagMap) (c : BoundaryTag) (cs : List BoundaryTag)
    → Laid t p (free_block m ∷ c ∷ cs)
    → Merged cs
    → words (free_block m ∷ c ∷ cs) < 2 ^ 30
    → Leaves p t p (collapse (free_block m ∷ free_block c.size ∷ cs)) (freed (p + wsize * m) t)
free_next p m t c cs h merged low =
    let q : ℕ = p + wsize * m in
    let size : ℕ = c.size in
    let w : TagMap = with_tags q size false t in
    let same = with_tags-outside q size false t (omega (arith, h.3.0)) in
    let (at, laid, below) =
      coalesce_left p m size w cs
        (Laid-cons t w p q (free_block m) (c ∷ cs) (free_block size ∷ cs) h (omega arith)
          (λ a l. same a (inl l)) (Laid-with_tags t q size false cs h.3.0 h.3.3))
        low in
    subst (Leaves p t p (collapse (free_block m ∷ free_block size ∷ cs)))
      (sym (freed_tags q t c h.3.1 (omega (arith, low))))
      (
        at,
        subst (λ ds. Laid (coalesce q w).1 p (glue (free_block m) (glue (free_block size) ds)))
            (sym (collapse_apart cs merged)) laid,
        λ a l. below a l ∙ same a (inl (omega (arith, l))),
      )

-- A block of the sequence that is in use is not below its start.
pub in_use_from : (q p : ℕ) (bs : List BoundaryTag) → in_use q p bs ≡ true → p ≤ q
in_use_from q p [] e = cc
in_use_from q p (b ∷ bs) e = ground (arith, in_use_from q (after p b) bs)

module _ (q p : ℕ) (b : BoundaryTag) (bs : List BoundaryTag) where
  pub mark_here : (p == q) ≡ true → mark_free q p (b ∷ bs) ≡ free_block b.size ∷ bs
  mark_here f = ground arith

  pub mark_there : (p == q) ≡ false → mark_free q p (b ∷ bs) ≡ b ∷ mark_free q (after p b) bs
  mark_there f = ground arith

  pub in_use_there : (p == q) ≡ false → in_use q p (b ∷ bs) ≡ true → in_use q (after p b) bs ≡ true
  in_use_there f e = ground arith

pub glue_used : (b : BoundaryTag) (bs : List BoundaryTag) → b.inuse ≡ true → glue b bs ≡ b ∷ bs
glue_used b [] e = refl
glue_used b (c ∷ cs) e = ap (λ a. glue_size a c.inuse b c cs) e

-- Both blocks stay as they are where the second is in use.
pub glue_before_used :
    (b c : BoundaryTag) (bs : List BoundaryTag) → c.inuse ≡ true → glue b (glue c bs) ≡ b ∷ c ∷ bs
glue_before_used b c bs e = ap (glue b) (glue_used c bs e) ∙ apart b.inuse c.inuse e
  where
    apart : (a d : Bool) → d ≡ true → glue_size a d b c bs ≡ b ∷ c ∷ bs
    apart true d e = refl
    apart false true e = refl
    apart false false e = cc

-- A block whose successors have changed.
pub kept :
    (p a : ℕ) (t : TagMap) (r : ℕ × TagMap) (b : BoundaryTag) (bs cs : List BoundaryTag)
    → Laid t p (b ∷ bs)
    → Leaves (after p b) t a cs r
    → Leaves p t a (b ∷ cs) r
kept p a t r b bs cs h (at, laid, same) = (
  at,
  Laid-cons t r.1 p (after p b) b bs cs h (omega arith) same laid,
  λ q l. same q (omega (arith, l)),
)

pub at_start :
    (q p : ℕ) (t : TagMap) (b : BoundaryTag) (bs : List BoundaryTag)
    → 4 ≤ p
    → Behind t p
    → Laid t p (b ∷ bs)
    → Merged bs
    → words (b ∷ bs) < 2 ^ 30
    → (p == q) ≡ true
    → Leaves p t p (collapse (mark_free q p (b ∷ bs))) (freed q t)
at_start q p t b bs room behind h merged low f =
    subst (λ cs. Leaves p t p (collapse cs) (freed q t)) (sym (mark_here q p b bs f))
      (subst (λ r. Leaves p t p (collapse (free_block b.size ∷ bs)) (freed r t)) (eq_of_== p q f)
        (free_here p t b bs room behind h merged low))
