-- ===== src/Training/Promote/Changes.antt =====
-- promote.py: what the writes of a promotion may change in the registry.
use agentic_ml_engineering_l.Base.{
  ℕ, suc, String, Bool, true, false, Option, some, List, [], ◌∷◌, ◌==◌, All, All-append, All-map,
  In, ◌≡◌, refl, ap, ◌∙◌, ◌⊎◌, inl, inr, Exc, Bool-cases, Option-cases, sym,
}
use agentic_ml_engineering_l.Base.Dict.{get, get-put}
use agentic_ml_engineering_l.Base.Equality.{string_eq, pair_eq, ==_sound}
use agentic_ml_engineering_l.Training.Promote.{
  ModelPromotion, Registry, write_all, set_alias, set_tag, add_promotion,
}

abbrev same_tag : String × String → String × String → Bool
same_tag a b = a == b

module _ {R : Type 0} (champion_alias version : String) (s : Registry R) where
  abbrev pub IsAudited : ModelPromotion R → Type 0
  IsAudited p =
      In p s.audit ⊎ ((p.version ≡ version) × (p.forced ≡ false) × (p.decision.approved ≡ true))

  -- What a promotion of the version may have changed: the champion's alias, which is then the version;
  -- tags of the version, and the tag superseded_by of others; and audit rows of approved promotions
  -- of the version that were not forced.
  pub record IsPromoted (u : Registry R) : Type 0 where
    pub aliases :
        (alias : String)
        → (get alias u.aliases ≡ get alias s.aliases)
          ⊎ ((alias ≡ champion_alias) × (get alias u.aliases ≡ some version))
    pub tags :
        (v key : String)
        → (get (v, key) u.tags ≡ get (v, key) s.tags) ⊎ ((v ≡ version) ⊎ (key ≡ "superseded_by"))
    pub audit : All IsAudited u.audit

  abbrev pub Keeps : (Registry R → Registry R) → Type 0
  Keeps w = (u : Registry R) → IsPromoted u → IsPromoted (w u)

  pub set_alias-Keeps : Keeps (set_alias champion_alias version)
  unfolding set_alias
  set_alias-Keeps u k = record {
    aliases = λ alias. elim (Bool-cases (champion_alias == alias)) [
      | inl e ↦ inr (
        sym (==_sound champion_alias alias e),
        get-put champion_alias alias version u.aliases ∙ (rw e refl),
      )
      | inr e ↦ elim (k.aliases alias) [
        | inl q ↦ inl (get-put champion_alias alias version u.aliases ∙ (rw e q))
        | inr (a, q) ↦ inr (a, get-put champion_alias alias version u.aliases ∙ (rw e q))
      ]
    ];
    tags = k.tags;
    audit = k.audit;
  }

  pub set_tag-Keeps :
      (v key text : String) → (v ≡ version) ⊎ (key ≡ "superseded_by") → Keeps (set_tag v key text)
  unfolding set_tag
  set_tag-Keeps v key text o u k = record {
    aliases = k.aliases;
    tags = λ w name. elim (Bool-cases (same_tag (v, key) (w, name))) [
      | inl e ↦
          let q = ==_sound (v, key) (w, name) e in
          inr (elim o [
            | inl p ↦ inl (sym (ap (λ (t : String × String). t.0) q) ∙ p)
            | inr p ↦ inr (sym (ap (λ (t : String × String). t.1) q) ∙ p)
          ])
      | inr e ↦ elim (k.tags w name) [
        | inl q ↦ inl (get-put (v, key) (w, name) text u.tags ∙ (rw e q))
        | inr p ↦ inr p
      ]
    ];
    audit = k.audit;
  }

  pub add_promotion-Keeps :
      (p : ModelPromotion R)
      → (p.version ≡ version) × (p.forced ≡ false) × (p.decision.approved ≡ true)
      → Keeps (add_promotion p)
  unfolding add_promotion
  add_promotion-Keeps p c u k = record {
    aliases = k.aliases;
    tags = k.tags;
    audit = All-append IsAudited u.audit (p ∷ []) k.audit (inr c, tt);
  }

  pub write_all-Keeps :
      (errors : ℕ → Option Exc) (n : ℕ) (ws : List (Registry R → Registry R)) (u : Registry R)
      → All Keeps ws
      → IsPromoted u
      → IsPromoted (write_all errors n ws u).1
  unfolding write_all
  write_all-Keeps errors n [] u h k = k
  write_all-Keeps errors n (w ∷ ws) u h k = elim (Option-cases (errors n)) [
    | inl q ↦ rw (q, write_all) (write_all-Keeps errors (suc n) ws (w u) h.1 (h.0 u k))
    | inr (e, q) ↦ rw (q, write_all) k
  ]

  pub IsPromoted-refl : IsPromoted s
  IsPromoted-refl = record {
    aliases = λ alias. inl refl;
    tags = λ v key. inl refl;
    audit = All-map (λ p. In p s.audit) IsAudited s.audit (λ p i. inl i) (all_in s.audit);
  }
    where
      all_in : (ps : List (ModelPromotion R)) → All (λ p. In p ps) ps
      all_in [] = tt
      all_in (p ∷ ps) =
          (inl refl, All-map (λ q. In q ps) (λ q. In q (p ∷ ps)) ps (λ q i. inr i) (all_in ps))
