-- ===== src/Malloc/Implicit/Free.antt =====
-- mm_free of mm-gback-implicit.c, on the sequence of blocks.
use computer_systems_project.Base.{
  ℕ, ◌+◌, ◌*◌, ◌^◌, ◌≤◌, ◌<◌, ◌≡◌, ◌∙◌, sym, ap, subst, inl, inr, Bool, true, false, ◌||◌, List, [],
  ◌∷◌, arith, ◌==◌, if◌then◌else◌, Bool-cases, eq_of_==,
}
use computer_systems_project.Malloc.Blocks.{BoundaryTag}
use computer_systems_project.Malloc.Implicit.{TagMap, wsize}
use computer_systems_project.Malloc.Implicit.Spec.{
  Laid, Merged, after, words, free_block, collapse, mark_free, in_use, merged_at,
}
use computer_systems_project.Malloc.Implicit.Write.{tag_of}
use computer_systems_project.Malloc.Implicit.Freed.{
  freed, Behind, Leaves, elsewhere, free_next, mark_here, mark_there, in_use_there, glue_used,
  glue_before_used, kept, at_start,
}

-- The block behind the first one, if that is free, or one further on.
module _ (q p m a : ℕ) (t : TagMap) (c : BoundaryTag) (cs : List BoundaryTag) where
  beyond_free :
      Laid t p (free_block m ∷ c ∷ cs)
      → Merged (free_block m ∷ c ∷ cs)
      → words (free_block m ∷ c ∷ cs) < 2 ^ 30
      → ((p + wsize * m == q) ≡ false
          → Leaves
              (after (p + wsize * m) c)
              t
              a
              (collapse (mark_free q (after (p + wsize * m) c) cs))
              (freed q t))
      → Leaves p t
          (if p + wsize * m == q then p else a)
          (collapse (free_block m ∷ mark_free q (p + wsize * m) (c ∷ cs)))
          (freed q t)
  beyond_free h merged low further = elim (Bool-cases (p + wsize * m == q)) [
    | inl f ↦
        elsewhere q p t (collapse (free_block m ∷ mark_free q (p + wsize * m) (c ∷ cs)))
          (ap (λ b. if b then p else a) (sym f))
          (subst (λ ds. Leaves p t p (collapse (free_block m ∷ ds)) (freed q t))
            (sym (mark_here q (p + wsize * m) c cs f))
            (subst
              (λ r. Leaves p t p (collapse (free_block m ∷ free_block c.size ∷ cs)) (freed r t))
              (eq_of_== (p + wsize * m) q f) (free_next p m t c cs h merged.1.1 low)))
    | inr f ↦
        let p' : ℕ = after (p + wsize * m) c in
        let ds : List BoundaryTag = collapse (mark_free q p' cs) in
        elsewhere q p t (collapse (free_block m ∷ mark_free q (p + wsize * m) (c ∷ cs)))
          (ap (λ b. if b then p else a) (sym f))
          (subst (λ es. Leaves p t a (collapse (free_block m ∷ es)) (freed q t))
            (sym (mark_there q (p + wsize * m) c cs f))
            (subst (λ es. Leaves p t a es (freed q t))
              (sym (glue_before_used (free_block m) c ds merged.0))
              (kept p a t (freed q t) (free_block m) (c ∷ cs) (c ∷ ds) h
                (kept (p + wsize * m) a t (freed q t) c cs ds h.3 (further f)))))
  ]

  beyond :
      (inuse : Bool)
      → inuse ≡ false
      → let b : BoundaryTag = tag_of inuse m in
        Laid t p (b ∷ c ∷ cs)
        → Merged (b ∷ c ∷ cs)
        → words (b ∷ c ∷ cs) < 2 ^ 30
        → ((p + wsize * m == q) ≡ false
            → Leaves
                (after (p + wsize * m) c)
                t
                a
                (collapse (mark_free q (after (p + wsize * m) c) cs))
                (freed q t))
        → Leaves p t
            (if p + wsize * m == q then p else a)
            (collapse (b ∷ mark_free q (p + wsize * m) (c ∷ cs)))
            (freed q t)
  beyond true e = cc
  beyond false e = beyond_free

pub second_used : (a b : Bool) → a ≡ false → (a || b) ≡ true → b ≡ true
second_used a b e f = ground arith

-- Where the merged block begins.
module _ (q p : ℕ) (b : BoundaryTag) (bs : List BoundaryTag) where
  at_here : (p == q) ≡ true → p ≡ merged_at q p (b ∷ bs)
  at_here f = ground arith

  at_used : (p == q) ≡ false → b.inuse ≡ true → merged_at q (after p b) bs ≡ merged_at q p (b ∷ bs)
  at_used f g = ground arith

  at_free :
      (c : BoundaryTag)
      → (p == q) ≡ false
      → b.inuse ≡ false
      → c.inuse ≡ true
      → (if after p b == q then p else merged_at q (after (after p b) c) bs)
        ≡ merged_at q p (b ∷ c ∷ bs)
  at_free c f g h = ground arith

-- Freeing a block in use marks it as free and merges it with its free neighbours.
pub freed-collapse :
    (q p : ℕ) (t : TagMap) (bs : List BoundaryTag)
    → 4 ≤ p
    → Behind t p
    → Laid t p bs
    → Merged bs
    → words bs < 2 ^ 30
    → in_use q p bs ≡ true
    → Leaves p t (merged_at q p bs) (collapse (mark_free q p bs)) (freed q t)
freed-collapse q p t [] room behind h merged low e = cc
freed-collapse q p t (b ∷ []) room behind h merged low e = elim (Bool-cases (p == q)) [
  | inl f ↦
      elsewhere q p t (collapse (mark_free q p (b ∷ []))) (at_here q p b [] f)
        (at_start q p t b [] room behind h tt low f)
  | inr f ↦ absurd (cc (in_use_there q p b [] f e))
]
freed-collapse q p t (b ∷ c ∷ cs) room behind h merged low e = elim (Bool-cases (p == q)) [
  | inl f ↦
      elsewhere q p t (collapse (mark_free q p (b ∷ c ∷ cs))) (at_here q p b (c ∷ cs) f)
        (at_start q p t b (c ∷ cs) room behind h merged.1 low f)
  | inr f ↦
      let e' = in_use_there q p b (c ∷ cs) f e in
      let a = merged_at q p (b ∷ c ∷ cs) in
      subst (λ ds. Leaves p t a (collapse ds) (freed q t)) (sym (mark_there q p b (c ∷ cs) f))
        (elim (Bool-cases b.inuse) [
          | inl g ↦
              let ds : List BoundaryTag = collapse (mark_free q (after p b) (c ∷ cs)) in
              subst (λ es. Leaves p t a es (freed q t)) (sym (glue_used b ds g))
                (elsewhere q p t (b ∷ ds) (at_used q p b (c ∷ cs) f g) (
                  kept p (merged_at q (after p b) (c ∷ cs)) t (freed q t) b (c ∷ cs) ds h (
                    freed-collapse q (after p b) t (c ∷ cs) (omega (arith, room))
                      (ap (λ (d : BoundaryTag). d.inuse) h.2 ∙ g) h.3 merged.1 (omega (arith, low))
                      e')))
          | inr g ↦
              let used = second_used b.inuse c.inuse g merged.0 in
              let p' : ℕ = after (after p b) c in
              elsewhere q p t (collapse (b ∷ mark_free q (after p b) (c ∷ cs)))
                (at_free q p b cs c f g used)
                (beyond q p b.size (merged_at q p' cs) t c cs b.inuse g h merged low (λ f'.
                  freed-collapse q p' t cs (omega (arith, room))
                    (ap (λ (d : BoundaryTag). d.inuse) h.3.2 ∙ used) h.3.3 merged.1.1
                    (omega (arith, low)) (in_use_there q (after p b) c cs f' e')))
        ])
]
