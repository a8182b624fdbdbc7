-- ===== src/Images/TruncIndex/Lookup.antt =====
-- Get is the lookup of a unique prefix among the identifiers.
use docker.Common.{
  ℕ, ◌≡◌, ◌⊎◌, refl, sym, ap, subst, ◌∙◌, Bool, true, false, ◌&&◌, ◌||◌, not, inl, inr, List, [],
  ◌∷◌, Text, arith, Bool-cases, ◌==◌, ==_refl, text_eq, nat_eq, or_false,
}
use docker.Common.Results.{Result, ok, err}
use docker.Common.Maps.{contains, add, contains-add, contains-remove}
use docker.Common.Strings.{has_prefix, has_byte}
use docker.Images.TruncIndex.{
  AreDistinct, Patricia, TruncIndex, IndexError, no_such_id, add_id, empty_index, delete_id,
  visit_all, found, get,
}

module _ (patricia : Patricia) where
  open patricia use {
    Trie, holds, visited, inserted, holds-new, holds-insert, deleted, holds-delete,
    contains-visited, visited-AreDistinct,
  }

  -- The trie holds the identifiers, and the empty text is none of them.
  pub record IsValid (idx : TruncIndex patricia) : Type 0 where
    pub same : (j : Text) → holds j idx.trie ≡ contains j idx.ids
    pub not_empty : contains [] idx.ids ≡ false

  empty_index-IsValid : IsValid (empty_index patricia)
  unfolding empty_index contains
  empty_index-IsValid = record { same = λ j. holds-new j; not_empty = refl }

  add_id_new :
      (id : Text) (idx : TruncIndex patricia)
      → has_byte b' ' id ≡ false
      → (id == []) ≡ false
      → contains id idx.ids ≡ false
      → (add_id patricia id idx).0
        ≡ record { trie = (patricia.insert id idx.trie).0; ids = add id idx.ids }
  unfolding add_id
  add_id_new id idx space empty old = rw (space, empty, old, add_id) refl

  -- Adding an identifier, whether it is refused or not, keeps the trie and the set in step.
  pub add_id-IsValid :
      (id : Text) (idx : TruncIndex patricia) → IsValid idx → IsValid (add_id patricia id idx).0
  unfolding add_id
  add_id-IsValid id idx v = elim (Bool-cases (has_byte b' ' id)) [
    | inl a ↦ rw (a, add_id) v
    | inr a ↦ elim (Bool-cases (id == [])) [
      | inl b ↦ rw (a, b, add_id) v
      | inr b ↦ elim (Bool-cases (contains id idx.ids)) [
        | inl c ↦ rw (a, b, c, add_id) v
        | inr c ↦ subst IsValid (sym (add_id_new id idx a b c)) (record {
          same = λ j.
              holds-insert id j idx.trie
              ∙ ap (λ (t : Bool). id == j || t) (v.same j)
              ∙ sym (contains-add id j idx.ids);
          not_empty = contains-add id [] idx.ids ∙ ground (arith, v.not_empty);
        })
      ]
    ]
  ]

  -- Deleting an identifier, whether it is there or not, keeps the trie and the set in step.
  pub delete_id-IsValid :
      (id : Text) (idx : TruncIndex patricia) → IsValid idx → IsValid (delete_id patricia id idx).0
  unfolding delete_id
  delete_id-IsValid id idx v = elim (Bool-cases (not (contains id idx.ids) || id == [])) [
    | inl missing ↦ rw (missing, delete_id) v
    | inr there ↦
        rw (there, delete_id)
          (record {
            same = λ j.
                holds-delete id j idx.trie
                ∙ ap (λ (t : Bool). not (id == j) && t) (v.same j)
                ∙ sym (contains-remove id j idx.ids);
            not_empty = contains-remove id [] idx.ids ∙ ground (arith, v.not_empty);
          })
  ]

  -- Whether an identifier is one of those with the prefix.
  abbrev pub matches : Text → TruncIndex patricia → Text → Bool
  matches s idx j = has_prefix j s && contains j idx.ids

  -- An answer is right about an identifier `j`: what is found is the only match; nothing is found
  -- where there is no match, or where there are two.
  abbrev pub Answers : Text → TruncIndex patricia → Text → Result IndexError Text → Type 0
  Answers s idx j (ok id) = matches s idx j ≡ (id == j)
  Answers s idx j (err e) =
      (e ≡ no_such_id s)
      × ((matches s idx j ≡ false)
          ⊎ ((i : Text) × (k : Text) × ((i == k) ≡ false)
              × (matches s idx i ≡ true)
              × (matches s idx k ≡ true)))

  found-Answers :
      (s j : Text) (idx : TruncIndex patricia) (l : List Text)
      → ((i : Text) → contains i l ≡ matches s idx i)
      → AreDistinct l
      → contains [] l ≡ false
      → Answers s idx j (found s (visit_all l []))
  unfolding found visit_all contains
  found-Answers s j idx [] h d n = (refl, inl (sym (h j)))
  found-Answers s j idx ([] ∷ l) h d n = absurd (ground arith)
  found-Answers s j idx ((c ∷ w) ∷ []) h d n = sym (h j) ∙ ground arith
  found-Answers s j idx ((c ∷ w) ∷ v ∷ l) h d n = (
    refl,
    inr (
      v,
      c ∷ w,
      (or_false (v == (c ∷ w)) (contains (c ∷ w) l) d.0).0,
      sym (h v) ∙ ground (arith, ==_refl v),
      sym (h (c ∷ w)) ∙ ground (arith, ==_refl (c ∷ w)),
    ),
  )

  -- On an index whose trie and set agree, Get of a prefix that is not empty returns an identifier
  -- exactly if it is the only one with the prefix. It fails exactly if none or several have it.
  pub get-Answers :
      (c : ℕ) (s j : Text) (idx : TruncIndex patricia)
      → IsValid idx
      → Answers (c ∷ s) idx j (get patricia (c ∷ s) idx)
  unfolding get
  get-Answers c s j idx v =
      let h : (i : Text) → contains i (visited (c ∷ s) idx.trie) ≡ matches (c ∷ s) idx i = λ i.
        contains-visited (c ∷ s) i idx.trie
        ∙ ap (λ (t : Bool). has_prefix i (c ∷ s) && t) (v.same i) in
      found-Answers (c ∷ s) j idx (visited (c ∷ s) idx.trie) h
        (visited-AreDistinct (c ∷ s) idx.trie) (h [])
