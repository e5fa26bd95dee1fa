-- ===== src/Cache/Prune.antt =====
-- src/cache.js, `prune`: what stays in the cache and what goes.
use git_pigeon.Prelude.{
  ℕ, ◌≡◌, ◌⊎◌, refl, Bool, true, false, not, ◌&&◌, Option, none, some, List, ◌++◌, arith, filter,
  take, is_some, if-cases,
}
use git_pigeon.Prelude.Sorting.{contains-sort_by_self}
use git_pigeon.Prelude.Text.{Text, contains}
use git_pigeon.Prelude.Members.{contains-append, contains-filter, contains-flat, contains-flat_inv}
use git_pigeon.Prelude.Instant.{ℤ}
use git_pigeon.Cache.{
  CachedManifest, Directory, Pruning, is_safe_name, chunks_of, is_readable, is_recent, sorted,
  comes_first, protected_ids, kept_manifests, referenced_chunks, is_stale, sweep, swept,
  unreadable_protected, prune,
}

module _ (date_parse : Text → Option ℤ) (locale_lt : Text → Text → Bool)
    (read : Text → Option CachedManifest) where
  abbrev readable : Text → Bool
  readable = is_readable date_parse locale_lt read

  abbrev pub pruned : List Text → ℕ → ℕ → ℤ → Directory → Directory
  pruned keep retained ms now d = (prune date_parse locale_lt read keep retained ms now d).0

  contains-sorted :
      (s : Text) (xs : List Text) → contains s (sorted date_parse locale_lt read xs) ≡ contains s xs
  unfolding sorted
  contains-sorted = contains-sort_by_self (comes_first date_parse locale_lt read)

  chunks-readable :
      (c : Text) (o : Option CachedManifest) → contains c (chunks_of o) ≡ true → is_some o ≡ true
  unfolding chunks_of contains
  chunks-readable c none h = cc
  chunks-readable c (some m) h = refl

  contains-kept :
      (id : Text) (protected ids : List Text)
      → contains id (kept_manifests date_parse locale_lt read protected ids)
        ≡ (contains id ids && (readable id && contains id protected))
  unfolding kept_manifests
  contains-kept id protected ids = contains-filter (λ i. readable i && contains i protected) id ids

  contains-swept_manifests :
      (id : Text) (protected : List Text) (d : Directory)
      → contains id (sweep date_parse locale_lt read protected d).manifests
        ≡ (contains id d.manifests && not (is_stale date_parse locale_lt read protected id))
  unfolding sweep
  contains-swept_manifests id protected d =
      contains-filter (λ i. not (is_stale date_parse locale_lt read protected i)) id d.manifests

  -- The chunks that the manifests with a safe name and under protection refer to.
  kept_chunks : List Text → Directory → List Text
  kept_chunks protected d =
      referenced_chunks date_parse locale_lt read
        (kept_manifests date_parse locale_lt read protected (filter is_safe_name d.manifests))

  contains-swept_chunks :
      (c : Text) (protected : List Text) (d : Directory)
      → contains c (sweep date_parse locale_lt read protected d).chunks ≡ (
          contains c d.chunks
          && not (is_stale date_parse locale_lt read (kept_chunks protected d) c))
  unfolding sweep kept_chunks
  contains-swept_chunks c protected d =
      contains-filter (λ i. not (is_stale date_parse locale_lt read (kept_chunks protected d) i)) c
        d.chunks

  contains-kept_chunks :
      (id c : Text) (protected : List Text) (d : Directory)
      → contains id d.manifests ≡ true
      → is_safe_name id ≡ true
      → contains id protected ≡ true
      → contains c (chunks_of (read id)) ≡ true
      → contains c (kept_chunks protected d) ≡ true
  unfolding kept_chunks referenced_chunks
  contains-kept_chunks id c protected d m s p h =
      let r = chunks-readable c (read id) h in
      let ids = filter is_safe_name d.manifests in
      contains-flat (λ i. chunks_of (read i)) c id
        (kept_manifests date_parse locale_lt read protected ids)
        (ground
          (arith, contains-kept id protected ids, contains-filter is_safe_name id d.manifests))
        h

  sweep-keeps_chunks :
      (id c : Text) (protected : List Text) (d : Directory)
      → contains id (sweep date_parse locale_lt read protected d).manifests ≡ true
      → is_safe_name id ≡ true
      → contains c (chunks_of (read id)) ≡ true
      → contains c d.chunks ≡ true
      → contains c (sweep date_parse locale_lt read protected d).chunks ≡ true
  sweep-keeps_chunks id c protected d m s h e = ground (
    arith,
    contains-swept_manifests id protected d,
    contains-swept_chunks c protected d,
    contains-kept_chunks id c protected d,
  )

  sweep-no_garbage :
      (c : Text) (protected : List Text) (d : Directory)
      → contains c (sweep date_parse locale_lt read protected d).chunks ≡ true
      → is_safe_name c ≡ true
      → (id : Text) × (contains id (sweep date_parse locale_lt read protected d).manifests ≡ true)
        × (contains c (chunks_of (read id)) ≡ true)
  unfolding kept_chunks referenced_chunks
  sweep-no_garbage c protected d h s =
      let ids = filter is_safe_name d.manifests in
      let found =
        contains-flat_inv (λ i. chunks_of (read i)) c
          (kept_manifests date_parse locale_lt read protected ids)
          (ground (arith, contains-swept_chunks c protected d)) in
      (
        found.0,
        ground (
          arith,
          contains-swept_manifests found.0 protected d,
          contains-kept found.0 protected ids,
          contains-filter is_safe_name found.0 d.manifests,
        ),
        found.2,
      )

  -- The ways in which a manifest can be protected.
  abbrev pub IsProtected : List Text → ℕ → ℕ → ℤ → Directory → Text → Type 0
  IsProtected keep retained ms now d id =
      (contains id keep ≡ true)
      ⊎ (contains id (
            take retained (
              sorted date_parse locale_lt read
                (filter (is_readable date_parse locale_lt read) (filter is_safe_name d.manifests))))
          ≡ true)
      ⊎ ((is_readable date_parse locale_lt read id ≡ true)
          × (is_recent date_parse locale_lt read now ms id ≡ true))

  -- Pruning does nothing, or sweeps under a list of protected names.
  prune_cases :
      (P : Directory × Pruning → Type 0) (keep : List Text) (retained ms : ℕ) (now : ℤ)
      (d : Directory)
      → ((p : Pruning) → p.skipped ≡ true → P (d, p))
      → (let protected =
            protected_ids date_parse locale_lt read keep retained ms now
              (filter is_safe_name d.manifests) in
          P (
            sweep date_parse locale_lt read protected d,
            swept date_parse locale_lt read protected d,
          ))
      → P (prune date_parse locale_lt read keep retained ms now d)
  unfolding prune
  prune_cases P keep retained ms now d skip run =
      if-cases P
        (unreadable_protected date_parse locale_lt read keep (filter is_safe_name d.manifests)) _ _
        (skip _ refl) run

  contains-protected :
      (keep : List Text) (retained ms : ℕ) (now : ℤ) (d : Directory) (id : Text)
      → contains id d.manifests ≡ true
      → is_safe_name id ≡ true
      → IsProtected keep retained ms now d id
      → contains id (
          protected_ids date_parse locale_lt read keep retained ms now
            (filter is_safe_name d.manifests))
        ≡ true
  unfolding protected_ids
  contains-protected keep retained ms now d id m s p =
      let ids = filter is_safe_name d.manifests in
      let all = sorted date_parse locale_lt read (filter readable ids) in
      let new = take retained all in
      let recent = filter (is_recent date_parse locale_lt read now ms) all in
      ground (
        arith,
        contains-append id (filter is_safe_name keep) (new ++ recent),
        contains-append id new recent,
        contains-filter is_safe_name id keep,
        contains-filter (is_recent date_parse locale_lt read now ms) id all,
        contains-sorted id (filter readable ids),
        contains-filter readable id ids,
        contains-filter is_safe_name id d.manifests,
      )

  -- A manifest stays in the cache, if it is one of those to keep, one of the newest, or readable and
  -- recent.
  pub prune-keeps_manifests :
      (keep : List Text) (retained ms : ℕ) (now : ℤ) (d : Directory) (id : Text)
      → contains id d.manifests ≡ true
      → is_safe_name id ≡ true
      → IsProtected keep retained ms now d id
      → contains id (pruned keep retained ms now d).manifests ≡ true
  prune-keeps_manifests keep retained ms now d id m s p =
      let protected =
        protected_ids date_parse locale_lt read keep retained ms now
          (filter is_safe_name d.manifests) in
      prune_cases (λ e. contains id (e.0).manifests ≡ true) keep retained ms now d (λ _ _. m)
        (ground (
          arith,
          contains-swept_manifests id protected d,
          contains-protected keep retained ms now d id m s p,
        ))

  -- A chunk that a manifest left in the cache refers to for its bundle, a private or a live file is not
  -- removed.
  pub prune-keeps_chunks :
      (keep : List Text) (retained ms : ℕ) (now : ℤ) (d : Directory) (id c : Text)
      → contains id (pruned keep retained ms now d).manifests ≡ true
      → is_safe_name id ≡ true
      → contains c (chunks_of (read id)) ≡ true
      → contains c d.chunks ≡ true
      → contains c (pruned keep retained ms now d).chunks ≡ true
  prune-keeps_chunks keep retained ms now d id c m s h e =
      let protected =
        protected_ids date_parse locale_lt read keep retained ms now
          (filter is_safe_name d.manifests) in
      prune_cases (λ x. (contains id (x.0).manifests ≡ true) → contains c (x.0).chunks ≡ true) keep
        retained ms now d (λ _ _ _. e) (λ k. sweep-keeps_chunks id c protected d k s h e) m

  -- Unless the pruning is skipped, each chunk that it leaves under a digest's name is one that a
  -- manifest left in the cache refers to.
  pub prune-no_garbage :
      (keep : List Text) (retained ms : ℕ) (now : ℤ) (d : Directory) (c : Text)
      → (prune date_parse locale_lt read keep retained ms now d).1.skipped ≡ false
      → contains c (pruned keep retained ms now d).chunks ≡ true
      → is_safe_name c ≡ true
      → (id : Text) × (contains id (pruned keep retained ms now d).manifests ≡ true)
        × (contains c (chunks_of (read id)) ≡ true)
  prune-no_garbage keep retained ms now d c skipped h s =
      let ids = filter is_safe_name d.manifests in
      let protected = protected_ids date_parse locale_lt read keep retained ms now ids in
      prune_cases
        (λ x.
          (x.1.skipped ≡ false)
          → (contains c (x.0).chunks ≡ true)
          → (id : Text) × (contains id (x.0).manifests ≡ true)
            × (contains c (chunks_of (read id)) ≡ true))
        keep retained ms now d (λ p t f _. absurd (ground arith))
        (λ _ k. sweep-no_garbage c protected d k s) skipped h
