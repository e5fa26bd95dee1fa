-- ===== src/Cache/Chunks.antt =====
-- src/cache.js, `writeChunk` and `readChunk`: what is written is what is read, also where the file
-- was written before there was a key.
use git_pigeon.Prelude.{
  ◌+◌, ◌≡◌, ◌⊎◌, refl, sym, take, drop, [], ◌∷◌, ap, ◌∙◌, true, false, Option, none, some, ◌++◌,
  arith, length, is_some, Bool-cases, inl, inr, ltb, length-append,
}
use git_pigeon.Prelude.Text.{Text, text_eq}
use git_pigeon.Cache.{
  laid_out, opened, Bytes, Cipher, chunk_magic, iv_size, tag_size, read_ok, encrypt_chunk,
  split_chunk, read_encrypted, is_encrypted, read_chunk, write_chunk,
}

take-append : (xs ys : Bytes) → take (length xs) (xs ++ ys) ≡ xs
take-append [] ys = refl
take-append (x ∷ xs) ys = ap (◌∷◌ x) (take-append xs ys)

drop-append : (xs ys : Bytes) → drop (length xs) (xs ++ ys) ≡ ys
drop-append [] ys = refl
drop-append (x ∷ xs) ys = drop-append xs ys

module _ {K : Type 0} (cipher : Cipher K) where
  -- What is encrypted is decrypted with the same key, digest, IV and tag.
  abbrev pub IsInverse : Type 0
  IsInverse =
      (key : K) (iv : Bytes) (digest : Text) (payload : Bytes)
      → let (tag, ciphertext) = cipher.encrypt key iv digest payload in
        cipher.decrypt key digest iv tag ciphertext ≡ some payload

  -- A tag has sixteen bytes.
  abbrev pub IsTagged : Type 0
  IsTagged =
      (key : K) (iv : Bytes) (digest : Text) (payload : Bytes)
      → length (cipher.encrypt key iv digest payload).0 ≡ tag_size

  is_encrypted-magic : (body : Bytes) → is_encrypted cipher (chunk_magic ++ body) ≡ true
  unfolding text_eq
  is_encrypted-magic body = refl

  read_encrypted-magic :
      (key : K) (digest : Text) (body : Bytes)
      → ltb (length body) (iv_size + tag_size) ≡ false
      → read_encrypted cipher (some key) digest (chunk_magic ++ body)
        ≡ split_chunk cipher key digest body
  unfolding read_encrypted
  read_encrypted-magic key digest body h = ground (arith, length-append chunk_magic body)

  -- The parts of what is laid out are found again.
  split-laid_out :
      (key : K) (digest : Text) (iv tag ciphertext : Bytes)
      → length iv ≡ iv_size
      → length tag ≡ tag_size
      → split_chunk cipher key digest (laid_out iv (tag, ciphertext))
        ≡ opened cipher (cipher.decrypt key digest iv tag ciphertext)
  split-laid_out key digest iv tag ciphertext i t =
      let first : take iv_size (iv ++ (tag ++ ciphertext)) ≡ iv =
        rw (sym i) (take-append iv (tag ++ ciphertext)) in
      let rest : drop iv_size (iv ++ (tag ++ ciphertext)) ≡ tag ++ ciphertext =
        rw (sym i) (drop-append iv (tag ++ ciphertext)) in
      let second : take tag_size (tag ++ ciphertext) ≡ tag =
        rw (sym t) (take-append tag ciphertext) in
      let third : drop tag_size (tag ++ ciphertext) ≡ ciphertext =
        rw (sym t) (drop-append tag ciphertext) in
      rw (first, rest, second, third) refl

  -- Reading what was encrypted.
  read-encrypt :
      (key : K) (iv iv2 : Bytes) (digest : Text) (payload : Bytes)
      → IsInverse
      → IsTagged
      → length iv ≡ iv_size
      → read_chunk cipher (some key) iv2 digest (encrypt_chunk cipher (some key) iv digest payload)
        ≡ (read_ok payload, encrypt_chunk cipher (some key) iv digest payload)
  unfolding read_chunk encrypt_chunk
  read-encrypt key iv iv2 digest payload h l i =
      let sealed = cipher.encrypt key iv digest payload in
      let body = laid_out iv sealed in
      let t = l key iv digest payload in
      rw (is_encrypted-magic body) (
        ap (λ r. (r, chunk_magic ++ body))
          (read_encrypted-magic key digest body (
              ground (
                arith,
                i,
                t,
                length-append iv (sealed.0 ++ sealed.1),
                length-append sealed.0 sealed.1,
              ))
            ∙ split-laid_out key digest iv sealed.0 sealed.1 i t
            ∙ ap (opened cipher) (h key iv digest payload)))

  read_plain :
      (key : Option K) (iv : Bytes) (digest : Text) (stored : Bytes)
      → is_encrypted cipher stored ≡ false
      → read_chunk cipher key iv digest stored
        ≡ (read_ok stored, encrypt_chunk cipher key iv digest stored)
  unfolding read_chunk
  read_plain key iv digest stored e = rw e refl

  read_magic :
      (key : Option K) (iv : Bytes) (digest : Text) (stored : Bytes)
      → is_encrypted cipher stored ≡ true
      → read_chunk cipher key iv digest stored ≡ (read_encrypted cipher key digest stored, stored)
  unfolding read_chunk
  read_magic key iv digest stored e = rw e refl

  -- A chunk written to the cache is read back as it was, and the file stays as it is, given that the
  -- cipher decrypts what it encrypted, its tags have sixteen bytes, and the IV has twelve; where there
  -- is no key, for a chunk that does not begin like an encrypted one.
  pub read-write_chunk :
      (key : Option K) (iv iv2 : Bytes) (digest : Text) (payload : Bytes)
      → IsInverse
      → IsTagged
      → length iv ≡ iv_size
      → (is_some key ≡ true) ⊎ (is_encrypted cipher payload ≡ false)
      → read_chunk cipher key iv2 digest (write_chunk cipher key iv digest payload none).1
        ≡ write_chunk cipher key iv digest payload none
  unfolding write_chunk encrypt_chunk
  read-write_chunk none iv iv2 digest payload h l i (inl e) = absurd (ground arith)
  read-write_chunk none iv iv2 digest payload h l i (inr e) = read_plain none iv2 digest payload e
  read-write_chunk (some key) iv iv2 digest payload h l i e =
      read-encrypt key iv iv2 digest payload h l i

  -- Reading a chunk a second time yields the same again and leaves the file as it is then, given that
  -- the cipher works.
  pub read-read_chunk :
      (key : Option K) (iv iv2 : Bytes) (digest : Text) (stored : Bytes)
      → IsInverse
      → IsTagged
      → length iv ≡ iv_size
      → read_chunk cipher key iv2 digest (read_chunk cipher key iv digest stored).1
        ≡ read_chunk cipher key iv digest stored
  unfolding encrypt_chunk
  read-read_chunk none iv iv2 digest stored h l i = elim (Bool-cases (is_encrypted cipher stored)) [
    | inl e ↦ rw (read_magic none iv digest stored e) (read_magic none iv2 digest stored e)
    | inr e ↦ rw (read_plain none iv digest stored e) (read_plain none iv2 digest stored e)
  ]
  read-read_chunk (some key) iv iv2 digest stored h l i =
      elim (Bool-cases (is_encrypted cipher stored)) [
        | inl e ↦
            rw (read_magic (some key) iv digest stored e)
              (read_magic (some key) iv2 digest stored e)
        | inr e ↦
            rw (read_plain (some key) iv digest stored e)
              (read-encrypt key iv iv2 digest stored h l i)
      ]
