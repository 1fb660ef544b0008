-- ===== src/Simulator/Dataset/Whole.antt =====
-- dataset.py: "a crash mid-download is never mistaken for a complete, usable file".
use agentic_ml_engineering_l.Base.{
  Option, none, some, List, [], ◌∷◌, All, Option-cases, ◌≡◌, refl, ap, ◌⊎◌, inl, inr, Exc, ok,
}
use agentic_ml_engineering_l.Simulator.Dataset.{
  DataDir, Response, ensure_dataset, present, download, finished,
}

module _ {B : Type 0} where
  -- The starts of the process on one data directory, each with its response.
  unfoldable pub starts : List (Response B) → DataDir B → DataDir B
  unfolding ensure_dataset
  starts [] d = d
  starts (r ∷ rs) d = starts rs (ensure_dataset r d).1

  module _ (file : List B) where
    -- A response that does not break off has the file.
    abbrev pub Serves : Response B → Type 0
    Serves r = r.broken ≡ none → r.chunks ≡ file

    -- The archive, if it is there, is whole.
    abbrev pub IsWhole : DataDir B → Type 0
    IsWhole d = (d.dest ≡ none) ⊎ (d.dest ≡ some file)

    finished-IsWhole :
        (e : Option Exc) (written : List B) (d : DataDir B)
        → (e ≡ none → written ≡ file)
        → IsWhole d
        → IsWhole (finished e written d).1
          × ((finished e written d).0 ≡ ok tt → (finished e written d).1.dest ≡ some file)
    unfolding finished
    finished-IsWhole none written d s w =
        (inr (ap (λ f. some f) (s refl)), (λ q. ap (λ f. some f) (s refl)))
    finished-IsWhole (some e) written d s w = (w, (λ q. absurd cc))

    present-IsWhole :
        (dest : Option (List B)) (r : Response B) (d : DataDir B)
        → d.dest ≡ dest
        → Serves r
        → IsWhole d
        → IsWhole (present dest r d).1
          × ((present dest r d).0 ≡ ok tt → (present dest r d).1.dest ≡ some file)
    unfolding present
    present-IsWhole (some f) r d q s w = (w, (λ o. elim w [ inl n ↦ absurd (cc) | inr h ↦ h ]))
    present-IsWhole none r d q s w = elim (Option-cases r.status_error) [
      | inl e ↦ rw (e, download) (finished-IsWhole r.broken r.chunks d s w)
      | inr (x, e) ↦ rw (e, download) (w, (λ o. absurd cc))
    ]

    starts-any :
        (rs : List (Response B)) (d : DataDir B) → All Serves rs → IsWhole d → IsWhole (starts rs d)
    unfolding starts ensure_dataset
    starts-any [] d s w = w
    starts-any (r ∷ rs) d s w =
        starts-any rs (ensure_dataset r d).1 s.1 (present-IsWhole d.dest r d refl s.0 w).0

    -- After any starts on an empty directory, whichever downloads failed or broke off, the archive is
    -- missing or whole; and a start that then returns leaves it whole.
    pub ensure_dataset-IsWhole :
        (rs : List (Response B)) (r : Response B)
        → All Serves rs
        → Serves r
        → let d = starts rs (record { dest = none; part = none }) in
          IsWhole d × ((ensure_dataset r d).0 ≡ ok tt → (ensure_dataset r d).1.dest ≡ some file)
    unfolding ensure_dataset
    ensure_dataset-IsWhole rs r s s' =
        let d = starts rs (record { dest = none; part = none }) in
        let w = starts-any rs (record { dest = none; part = none }) s (inl refl) in
        (w, (present-IsWhole d.dest r d refl s' w).1)
