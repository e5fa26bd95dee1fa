-- ===== src/Sync/Manifest/Identity.antt =====
-- src/protocol.js, `snapshotDigest`: what a snapshot ID stands for.
use git_pigeon.Prelude.{
  ℕ, ◌≡◌, refl, sym, ap, ◌∙◌, Bool, true, not, Option, none, some, List, drop, length, arith,
  if◌then◌else◌, or_right,
}
use git_pigeon.Prelude.Text.{Text, text, text_eq→eq}
use git_pigeon.Prelude.Patterns.{is_hex, every}
use git_pigeon.Prelude.Framing.{nul_free, split_at_nul, is_hex-nul_free}
use git_pigeon.Sync.Chunks.{Bytes}
use git_pigeon.Sync.Records.{is_digest, is_digest_or_none}
use git_pigeon.Sync.Manifest.{RawManifest, Manifest, File}
use git_pigeon.Sync.Manifest.Check.{
  or_else, or_zero, is_extended, has_live, chunk_size_of, live_statement, snapshot_digest,
  is_identified, validate_manifest, Bundle, plain_statement, valid_bundle, valid_workspace,
  valid_live,
}
use git_pigeon.Sync.Manifest.Valid.{
  validate_manifest-parts, valid_bundle-IsBundle, valid_workspace-AreFiles, valid_live-AreFiles,
}

dash-ne-digest : (s : Text) → is_digest s ≡ true → ¬ (text "-" ≡ s)
unfolding is_hex
dash-ne-digest s h e = let n = ap length e in ground arith

or_dash-injective :
    (a b : Option Text)
    → is_digest_or_none a ≡ true
    → is_digest_or_none b ≡ true
    → or_else a (text "-") ≡ or_else b (text "-")
    → a ≡ b
or_dash-injective none none h k e = refl
or_dash-injective none (some t) h k e = absurd (dash-ne-digest t k e)
or_dash-injective (some s) none h k e = absurd (dash-ne-digest s h (sym e))
or_dash-injective (some s) (some t) h k e = ap some e

or_dash-nul_free :
    (a : Option Text) → is_digest_or_none a ≡ true → nul_free (or_else a (text "-")) ≡ true
unfolding every
or_dash-nul_free none h = refl
or_dash-nul_free (some s) h = is_hex-nul_free 64 s h

module _ (digest_text : Text → Text) (digest : Bytes → Text) (base64 : Text → Bytes)
    (show : ℕ → Text) (locale_lt : Text → Text → Bool) where
  statement : Option Text → Text → Text → ℕ → Text
  statement = live_statement digest_text digest base64 show locale_lt

  live_statement-injective :
      (a b : Option Text) (f g l k : Text) (m n : ℕ)
      → is_digest_or_none a ≡ true
      → is_digest_or_none b ≡ true
      → is_digest f ≡ true
      → is_digest g ≡ true
      → is_digest l ≡ true
      → is_digest k ≡ true
      → statement a f l m ≡ statement b g k n
      → (a ≡ b) × (f ≡ g) × (l ≡ k) × (show m ≡ show n)
  unfolding statement live_statement
  live_statement-injective a b f g l k m n ha hb hf hg hl hk e =
      let (x, t) =
        split_at_nul (or_else a (text "-")) (or_else b (text "-")) _ _ (or_dash-nul_free a ha)
          (or_dash-nul_free b hb) (ap (drop 22) e) in
      let (y, u) = split_at_nul f g _ _ (is_hex-nul_free 64 f hf) (is_hex-nul_free 64 g hg) t in
      let (z, v) = split_at_nul l k _ _ (is_hex-nul_free 64 l hl) (is_hex-nul_free 64 k hk) u in
      (or_dash-injective a b ha hb x, y, z, v)

  identified :
      (v : RawManifest) (bundle : Option Text) (files live : Text)
      → has_live v ≡ true
      → is_extended v ≡ true
      → is_identified digest_text digest base64 show locale_lt v bundle files live ≡ true
      → digest_text (statement bundle files live (or_zero (chunk_size_of v.transport_chunk_size)))
        ≡ v.snapshot_id
  unfolding is_identified snapshot_digest statement
  identified v bundle files live l x h =
      let id =
        if has_live v
        then statement bundle files live (or_zero (chunk_size_of v.transport_chunk_size))
        else plain_statement digest_text digest base64 show locale_lt bundle files in
      let e : digest_text id ≡ v.snapshot_id =
        text_eq→eq (digest_text id) v.snapshot_id
          (or_right (not (is_extended v)) _ h (ground arith)) in
      rw
        (sym (
          ap
            (λ b. digest_text (
              if b
              then statement bundle files live (or_zero (chunk_size_of v.transport_chunk_size))
              else plain_statement digest_text digest base64 show locale_lt bundle files))
            l))
        e

  abbrev ArePartsOf : RawManifest → Bundle → Text × List File → Text × List File → Type 0
  ArePartsOf v b p l =
      (valid_bundle digest_text digest base64 show locale_lt v ≡ some b)
      × (valid_workspace digest_text digest base64 show locale_lt v ≡ some p)
      × (valid_live digest_text digest base64 show locale_lt v ≡ some l)

  same_parts :
      (v w : RawManifest) (b c : Bundle) (p q l k : Text × List File)
      → ((s t : Text) → digest_text s ≡ digest_text t → s ≡ t)
      → ((i j : ℕ) → show i ≡ show j → i ≡ j)
      → (has_live v ≡ true) × (is_extended v ≡ true)
      → (has_live w ≡ true) × (is_extended w ≡ true)
      → ArePartsOf v b p l
      → ArePartsOf w c q k
      → is_identified digest_text digest base64 show locale_lt v b.sha256 p.0 l.0 ≡ true
      → is_identified digest_text digest base64 show locale_lt w c.sha256 q.0 k.0 ≡ true
      → v.snapshot_id ≡ w.snapshot_id
      → (b.sha256 ≡ c.sha256)
        × (p.0 ≡ q.0)
        × (l.0 ≡ k.0)
        × (or_zero (chunk_size_of v.transport_chunk_size)
            ≡ or_zero (chunk_size_of w.transport_chunk_size))
  same_parts v w b c p q l k inj write hv hw (eb, ep, el) (ec, eq, ek) i j same =
      let (_, _, dp) =
        valid_workspace-AreFiles digest_text digest base64 show locale_lt v p.0 p.1 ep in
      let (_, _, dq) =
        valid_workspace-AreFiles digest_text digest base64 show locale_lt w q.0 q.1 eq in
      let (_, _, dl) = valid_live-AreFiles digest_text digest base64 show locale_lt v l.0 l.1 el in
      let (_, _, dk) = valid_live-AreFiles digest_text digest base64 show locale_lt w k.0 k.1 ek in
      let db =
        (valid_bundle-IsBundle digest_text digest base64 show locale_lt v b eb).sha256_valid in
      let dc =
        (valid_bundle-IsBundle digest_text digest base64 show locale_lt w c ec).sha256_valid in
      let (x, y, z, n) =
        live_statement-injective b.sha256 c.sha256 p.0 q.0 l.0 k.0
          (or_zero (chunk_size_of v.transport_chunk_size))
          (or_zero (chunk_size_of w.transport_chunk_size)) db dc dp dq dl dk
          (inj _ _ (
            identified v b.sha256 p.0 l.0 hv.0 hv.1 i
            ∙ same
            ∙ sym (identified w c.sha256 q.0 k.0 hw.0 hw.1 j))) in
      (x, y, z, write _ _ n)

  -- Two manifests that are let through, both with live files, and both with private files stated, have
  -- one snapshot ID only if they have one bundle's digest, one digest of the private and one of the live
  -- files, and one chunk size, given that no two texts have one digest and that no two numbers are
  -- written alike.
  pub snapshot_id-injective :
      (repository_id : Text) (expected expected' : Option Text) (v w : RawManifest) (m n : Manifest)
      → ((s t : Text) → digest_text s ≡ digest_text t → s ≡ t)
      → ((i j : ℕ) → show i ≡ show j → i ≡ j)
      → (has_live v ≡ true) × (is_extended v ≡ true)
      → (has_live w ≡ true) × (is_extended w ≡ true)
      → validate_manifest digest_text digest base64 show locale_lt repository_id expected (some v)
        ≡ some m
      → validate_manifest digest_text digest base64 show locale_lt repository_id expected' (some w)
        ≡ some n
      → m.snapshot_id ≡ n.snapshot_id
      → (m.bundle_sha256 ≡ n.bundle_sha256)
        × (m.workspace_digest ≡ n.workspace_digest)
        × (m.live_workspace_digest ≡ n.live_workspace_digest)
        × (or_zero m.transport_chunk_size ≡ or_zero n.transport_chunk_size)
  snapshot_id-injective repository_id expected expected' v w m n inj write hv hw vm vn same =
      let (b, p, l, eb, ep, el, i, em) =
        validate_manifest-parts digest_text digest base64 show locale_lt repository_id expected v m
          vm in
      let (c, q, k, ec, eq, ek, j, en) =
        validate_manifest-parts digest_text digest base64 show locale_lt repository_id expected' w n
          vn in
      rw (sym em, sym en)
        (same_parts v w b c p q l k inj write hv hw (eb, ep, el) (ec, eq, ek) i j
          (ap (λ r. r.snapshot_id) em ∙ same ∙ sym (ap (λ r. r.snapshot_id) en)))
