-- ===== src/Sherlock/Laws.antt =====
-- Which processes 12-system-and-process-information/sherlock.c lists.
use linux_programming_interf.Common.{
  ℕ, ◌≡◌, ◌↔◌, refl, sym, ◌∙◌, true, some, inl, inr, ◌⊎◌, List, [], ◌∷◌, ◌++◌, CString, codes,
  str_eq_iff, arith, Bool-cases, Option-cases,
}
use mathlib.Core.Path.{subst}
use linux_programming_interf.Sherlock.{
  ProcFs, EntryType, directory, link, other, target_size, matches, search_links, check_process,
}

module _ (P : ProcFs) where
  open P use {entries, readlink}

  -- An entry of the directory of descriptors is a link to the path.
  abbrev pub IsLinkTo : CString → CString → CString × EntryType → Type 0
  IsLinkTo match dirname (d_name, type) =
      (type ≡ link) × (readlink (dirname ++ (codes "/fd/" ++ d_name)) target_size ≡ some match)

  abbrev pub SomeLink : CString → CString → List (CString × EntryType) → Type 0
  SomeLink match dirname [] = ⊥
  SomeLink match dirname (entry ∷ rest) = IsLinkTo match dirname entry ⊎ SomeLink match dirname rest

  matches_iff :
      (m : ℕ) (match dirname d_name : CString) (type : EntryType)
      → (matches P (m ∷ match) dirname type d_name ≡ true)
        ↔ IsLinkTo (m ∷ match) dirname (d_name, type)
  unfolding matches
  matches_iff m match dirname d_name directory = ground arith
  matches_iff m match dirname d_name other = ground arith
  matches_iff m match dirname d_name link =
      elim (Option-cases (readlink (dirname ++ (codes "/fd/" ++ d_name)) target_size)) [
        | inl e ↦ rw (e, matches) (ground arith)
        | inr ([], e) ↦ rw (e, matches) (ground arith)
        | inr (c ∷ target, e) ↦
            rw (e, matches) (ground (arith, str_eq_iff (c ∷ target) (m ∷ match)))
      ]

  search_links_iff :
      (m : ℕ) (match dirname : CString) (found : List (CString × EntryType))
      → (search_links P (m ∷ match) dirname found ≡ true) ↔ SomeLink (m ∷ match) dirname found
  unfolding search_links
  search_links_iff m match dirname [] = ground arith
  search_links_iff m match dirname ((d_name, type) ∷ rest) =
      let (to, from) = matches_iff m match dirname d_name type in
      let (later, back) = search_links_iff m match dirname rest in
      elim (Bool-cases (matches P (m ∷ match) dirname type d_name)) [
        | inl yes_here ↦ rw (yes_here, search_links) (λ _. inl (to yes_here), λ _. refl)
        | inr no_here ↦
            rw (no_here, search_links)
              (
                λ k. inr (later k),
                λ o. elim o [
                  | inl here ↦ absurd (let clash = sym (from here) ∙ no_here in cc)
                  | inr there ↦ back there
                ],
              )
      ]

  -- For a path that is not empty, a process is listed exactly when its directory of descriptors can
  -- be read and an entry of it is a symbolic link of which readlink() gives the path.
  pub check_process_iff :
      (m : ℕ) (match dirname : CString)
      → (check_process P dirname (m ∷ match) ≡ true) ↔ (
          (found : List (CString × EntryType)) × (entries (dirname ++ codes "/fd") ≡ some found)
          × SomeLink (m ∷ match) dirname found)
  unfolding check_process
  check_process_iff m match dirname = elim (Option-cases (entries (dirname ++ codes "/fd"))) [
    | inl e ↦ rw (e, check_process) (λ k. absurd (cc), λ (x, k, l). absurd (cc))
    | inr (found, e) ↦
        (let (to, from) = search_links_iff m match dirname found in
          rw (e, check_process)
            (
              λ k. (found, refl, to k),
              λ (x, k, l).
                  (let same : x ≡ found = cc in from (subst (SomeLink (m ∷ match) dirname) same l)),
            ))
  ]
