-- ===== src/Ebpf/Sni/Totality.antt =====
-- The bounds and the fuel of the parser of TLS ClientHello messages of pkg/ebpf/types.go.
use container_runtime_securi.Prelude.{
  ℕ, zero, suc, nat_comparable, string_comparable, bytes_comparable, ◌==◌, ◌+◌, ◌≤◌, ◌<◌, ◌≡◌, refl,
  sym, inl, inr, Bool, true, false, not, ◌&&◌, Option, none, some, [], arith, ltb, leb,
  if◌then◌else◌, Bool-cases, length,
}
use container_runtime_securi.Prelude.Outcome.{Outcome, ok, fail, panic, ◌>>=◌}
use container_runtime_securi.Prelude.Slices.{Bytes, index, slice, index_ok, slice_ok}
use container_runtime_securi.Ebpf.Sni.{
  SniError, TlsSniResult, u16_at, sni_names, parse_sni_extension, sni_extensions, extensions_at,
  compression_at, cipher_suites_at, session_id_at, client_hello_at, name_result, find_name,
  extract_tls_client_hello_sni,
}

-- A value with a property, and neither a panic nor spent fuel.
abbrev pub Gives {ℓ} : {A : Type ℓ} → (A → Type 0) → Outcome SniError A → Type 0
Gives P (ok a) = P a
Gives P (fail e) = ⊥
Gives P panic = ⊥

abbrev Any {ℓ} : {A : Type ℓ} → A → Type 0
Any a = Unit

bind-Gives {ℓ κ} :
    {A : Type ℓ} {B : Type κ} (P : A → Type 0) (Q : B → Type 0) (r : Outcome SniError A)
    (f : A → Outcome SniError B)
    → Gives P r
    → ((a : A) → P a → Gives Q (f a))
    → Gives Q (r >>= f)
bind-Gives P Q (ok a) f h k = k a h
bind-Gives P Q (fail e) f h k = h
bind-Gives P Q panic f h k = h

index-Gives : (bytes : Bytes) (i : ℕ) → i < length bytes → Gives Any (index {E = SniError} bytes i)
index-Gives bytes i h = let found = index_ok {E = SniError} bytes i h in rw found.2 tt

slice-Gives :
    (bytes : Bytes) (lo hi : ℕ)
    → lo ≤ hi
    → hi ≤ length bytes
    → Gives Any (slice {E = SniError} bytes lo hi)
slice-Gives bytes lo hi h k = rw (slice_ok {E = SniError} bytes lo hi h k) tt

u16_at-Gives : (bytes : Bytes) (i : ℕ) → i + 2 ≤ length bytes → Gives Any (u16_at bytes i)
unfolding u16_at
u16_at-Gives bytes i h =
    bind-Gives Any Any (slice bytes i (i + 2)) _ (slice-Gives bytes i (i + 2) (omega arith) h)
      (λ field k. tt)

-- A test, with its answer known in each branch.
test-Gives {ℓ} :
    {A : Type ℓ} (P : A → Type 0) (b : Bool) (x y : Outcome SniError A)
    → (b ≡ true → Gives P x)
    → (b ≡ false → Gives P y)
    → Gives P (elim b as (λ _. Outcome SniError A) [ true ↦ x | false ↦ y ])
test-Gives P true x y h k = h refl
test-Gives P false x y h k = k refl

if-Gives {ℓ} :
    {A : Type ℓ} (P : A → Type 0) (b : Bool) (x y : Outcome SniError A)
    → (b ≡ true → Gives P x)
    → (b ≡ false → Gives P y)
    → Gives P (if b then x else y)
if-Gives P true x y h k = h refl
if-Gives P false x y h k = k refl

sni_names-Gives :
    (fuel : ℕ) (bytes : Bytes) (offset : ℕ)
    → 0 < fuel
    → length bytes < offset + fuel
    → Gives Any (sni_names fuel bytes offset)
unfolding sni_names
sni_names-Gives zero bytes offset some_fuel h = absurd (omega arith)
sni_names-Gives (suc fuel) bytes offset some_fuel h =
    test-Gives Any (leb (offset + 3) (length bytes)) _ _
      (λ more.
        let inside : offset + 3 ≤ length bytes = ground arith in
        bind-Gives Any Any (index bytes offset) _ (index-Gives bytes offset (omega arith))
          (λ name_type _.
            bind-Gives Any Any (u16_at bytes (offset + 1)) _
              (u16_at-Gives bytes (offset + 1) (omega arith))
              (λ name_len _.
                test-Gives Any (name_type == 0 && leb (offset + 3 + name_len) (length bytes)) _ _
                  (λ fits.
                    slice-Gives bytes (offset + 3) (offset + 3 + name_len) (omega arith)
                      (ground arith))
                  (λ other.
                    sni_names-Gives fuel bytes (offset + 3 + name_len) (omega arith)
                      (omega arith)))))
      (λ end. tt)

parse_sni_extension-Gives : (bytes : Bytes) → Gives Any (parse_sni_extension bytes)
unfolding parse_sni_extension
parse_sni_extension-Gives bytes =
    if-Gives Any (ltb (length bytes) 2) _ _ (λ short. tt)
      (λ long.
        bind-Gives Any Any (u16_at bytes 0) _ (u16_at-Gives bytes 0 (ground arith))
          (λ list_len _. sni_names-Gives (length bytes + 1) bytes 2 (omega arith) (omega arith)))

sni_extensions-Gives :
    (fuel : ℕ) (payload : Bytes) (ext_end offset : ℕ)
    → ext_end ≤ length payload
    → 0 < fuel
    → length payload < offset + fuel
    → Gives Any (sni_extensions fuel payload ext_end offset)
unfolding sni_extensions
sni_extensions-Gives zero payload ext_end offset k some_fuel h = absurd (omega arith)
sni_extensions-Gives (suc fuel) payload ext_end offset k some_fuel h =
    test-Gives Any (leb (offset + 4) ext_end) _ _
      (λ more.
        let inside : offset + 4 ≤ length payload = ground arith in
        bind-Gives Any Any (u16_at payload offset) _ (u16_at-Gives payload offset (omega arith))
          (λ ext_type _.
            bind-Gives Any Any (u16_at payload (offset + 2)) _
              (u16_at-Gives payload (offset + 2) (omega arith))
              (λ ext_len _.
                let next =
                  sni_extensions-Gives fuel payload ext_end (offset + 4 + ext_len) k (omega arith)
                    (omega arith) in
                test-Gives Any (ltb ext_end (offset + 4 + ext_len)) _ _ (λ over. tt)
                  (λ fits.
                    test-Gives Any (ext_type == 0) _ _
                      (λ server_name.
                        bind-Gives Any Any (slice payload (offset + 4) (offset + 4 + ext_len)) _
                          (slice-Gives payload (offset + 4) (offset + 4 + ext_len) (omega arith)
                            (ground arith))
                          (λ ext _.
                            bind-Gives Any Any (parse_sni_extension ext) _
                              (parse_sni_extension-Gives ext)
                              (λ sni _.
                                test-Gives Any (sni == []) _ _ (λ empty. next) (λ named. tt))))
                      (λ other. next)))))
      (λ end. tt)

-- Nothing, or an end within the payload.
abbrev Within : Bytes → Option (ℕ × ℕ) → Type 0
Within payload none = Unit
Within payload (some r) = r.1 ≤ length payload

extensions_at-Gives :
    (payload : Bytes) (offset : ℕ) → Gives (Within payload) (extensions_at payload offset)
unfolding extensions_at
extensions_at-Gives payload offset =
    if-Gives (Within payload) (ltb (length payload) (offset + 2)) _ _ (λ over. tt)
      (λ fits.
        bind-Gives Any (Within payload) (u16_at payload offset) _
          (u16_at-Gives payload offset (ground arith))
          (λ ext_len _.
            if-Gives (Within payload) (ext_len == 0) _ _ (λ none_left. tt)
              (λ some_left. elim (Bool-cases (ltb (length payload) (offset + 2 + ext_len))) [
                | inl beyond ↦ rw beyond (omega arith)
                | inr inside ↦ rw inside (ground arith)
              ])))

compression_at-Gives :
    (payload : Bytes) (offset : ℕ) → Gives (Within payload) (compression_at payload offset)
unfolding compression_at
compression_at-Gives payload offset =
    if-Gives (Within payload) (ltb (length payload) (offset + 1)) _ _ (λ over. tt)
      (λ fits.
        bind-Gives Any (Within payload) (index payload offset) _
          (index-Gives payload offset (ground arith))
          (λ size _.
            if-Gives (Within payload) (ltb (length payload) (offset + 1 + size)) _ _ (λ over. tt)
              (λ inside. extensions_at-Gives payload (offset + 1 + size))))

cipher_suites_at-Gives :
    (payload : Bytes) (offset : ℕ) → Gives (Within payload) (cipher_suites_at payload offset)
unfolding cipher_suites_at
cipher_suites_at-Gives payload offset =
    if-Gives (Within payload) (ltb (length payload) (offset + 2)) _ _ (λ over. tt)
      (λ fits.
        bind-Gives Any (Within payload) (u16_at payload offset) _
          (u16_at-Gives payload offset (ground arith)) (λ size _. compression_at-Gives payload _))

session_id_at-Gives :
    (payload : Bytes) (offset : ℕ) → Gives (Within payload) (session_id_at payload offset)
unfolding session_id_at
session_id_at-Gives payload offset =
    if-Gives (Within payload) (ltb (length payload) (offset + 1)) _ _ (λ over. tt)
      (λ fits.
        bind-Gives Any (Within payload) (index payload offset) _
          (index-Gives payload offset (ground arith))
          (λ size _.
            if-Gives (Within payload) (ltb (length payload) (offset + 1 + size)) _ _ (λ over. tt)
              (λ inside. cipher_suites_at-Gives payload (offset + 1 + size))))

client_hello_at-Gives :
    (payload : Bytes) (offset : ℕ) → Gives (Within payload) (client_hello_at payload offset)
unfolding client_hello_at
client_hello_at-Gives payload offset =
    if-Gives (Within payload) (ltb (length payload) (offset + 4)) _ _ (λ over. tt)
      (λ fits.
        bind-Gives Any (Within payload) (index payload offset) _
          (index-Gives payload offset (ground arith))
          (λ kind _.
            if-Gives (Within payload) (not (kind == 1)) _ _ (λ other. tt)
              (λ hello.
                if-Gives (Within payload) (ltb (length payload) (offset + 4 + 2)) _ _ (λ over. tt)
                  (λ versioned.
                    if-Gives (Within payload) (ltb (length payload) (offset + 4 + 2 + 32)) _ _
                      (λ over. tt) (λ random. session_id_at-Gives payload (offset + 4 + 2 + 32))))))

find_name-Gives :
    (payload : Bytes) (found : Option (ℕ × ℕ))
    → Within payload found
    → Gives Any (find_name payload found)
unfolding find_name
find_name-Gives payload none h = tt
find_name-Gives payload (some r) h =
    sni_extensions-Gives (length payload + 1) payload r.1 r.0 h (omega arith) (omega arith)

-- A result has a name exactly if it says so, and reasons only with a name.
abbrev pub IsConsistent : TlsSniResult → Type 0
IsConsistent r =
    (r.has_sni ≡ not (r.sni == []))
    × (r.is_suspicious ≡ ltb 0 (length r.suspicious_reasons))
    × (r.has_sni ≡ false → r.suspicious_reasons ≡ [])

name_result-IsConsistent : (version : ℕ) (sni : Bytes) → IsConsistent (name_result version sni)
unfolding name_result
name_result-IsConsistent version sni = elim (Bool-cases (sni == [])) [
  | inl empty ↦ rw empty (refl, refl, λ h. refl)
  | inr named ↦ rw named (sym (rw named refl), refl, λ h. absurd cc)
]

-- `ExtractTLSClientHelloSNI` gives a result for every payload: it reads nothing out of bounds, and fuel of one more
-- than the lengths is enough. The result has a name exactly if it says so, it is suspicious exactly if it has
-- reasons, and it has none without a name.
pub extract_tls_client_hello_sni-Gives :
    (payload : Bytes) → Gives IsConsistent (extract_tls_client_hello_sni payload)
unfolding extract_tls_client_hello_sni
extract_tls_client_hello_sni-Gives payload =
    if-Gives IsConsistent (ltb (length payload) 5) _ _ (λ short. (refl, refl, λ h. refl))
      (λ long.
        bind-Gives Any IsConsistent (index payload 0) _ (index-Gives payload 0 (ground arith))
          (λ content_type _.
            if-Gives IsConsistent (not (content_type == 22)) _ _ (λ other. (refl, refl, λ h. refl))
              (λ handshake.
                bind-Gives Any IsConsistent (u16_at payload 1) _
                  (u16_at-Gives payload 1 (ground arith))
                  (λ version _.
                    bind-Gives (Within payload) IsConsistent (client_hello_at payload 5) _
                      (client_hello_at-Gives payload 5)
                      (λ found within.
                        bind-Gives Any IsConsistent (find_name payload found) _
                          (find_name-Gives payload found within)
                          (λ sni _. name_result-IsConsistent version sni))))))
