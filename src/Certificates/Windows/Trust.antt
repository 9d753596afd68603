-- ===== src/Certificates/Windows/Trust.antt =====
-- What WindowsInMemoryCertificateStore.cpp leaves in the system's store.
use http_filtering_engine.Base.{
  Bytes, ℕ, zero, suc, ◌+◌, ◌*◌, ◌≤◌, ◌<◌, Bool, true, false, not, List, [], ◌∷◌, ◌++◌,
  if◌then◌else◌, is_empty, ◌==◌, ◌&&◌, ◌||◌, bytes_eq, take, length, length-append, append-nil,
  append_assoc, some, ◌≡◌, refl, sym, subst, ap, ◌∙◌, arith, Option, none, Bool-cases, inl, inr,
}
use http_filtering_engine.Text.Compare.{c_str}
use http_filtering_engine.Http.Headers.{keep}
use http_filtering_engine.Certificates.Windows.{
  OsCertificate, System, should_remove, revoke_loop, revoke_os_trust, after_revoke,
  establish_os_trust,
}

suc_times : (a b : ℕ) → suc a * b ≡ b + a * b
suc_times a b = grind arith

bounded : (a l fuel : ℕ) → a ≤ l → (l + 1) * (l + 1) ≤ fuel → a * (l + 1) + l < fuel
bounded a l fuel h n = grind arith

-- Whether a text is shown as a name by a buffer that has room for so many bytes of it: byte by byte
-- the two agree, until the text ends, has a NUL byte, or the room is used up.
abbrev pub is_shown_as : ℕ → Bytes → Bytes → Bool
is_shown_as zero text name = is_empty name
is_shown_as (suc room) [] name = is_empty name
is_shown_as (suc room) (c ∷ text) [] = c == 0
is_shown_as (suc room) (c ∷ text) (x ∷ name) =
    let rest = is_shown_as room text name in not (c == 0) && (c == x && rest)

-- Whether a certificate goes by the authority's name: Windows has a display name for it, which the
-- 128 bytes of the buffer, the last of them a NUL byte, show as the authority's.
abbrev pub has_name : System → Bytes → OsCertificate → Bool
has_name w name c = w.is_named c && is_shown_as 127 c.display_name name

shown-is :
    (room : ℕ) (text name : Bytes)
    → bytes_eq (c_str (take room text)) name ≡ is_shown_as room text name
unfolding c_str bytes_eq
shown-is zero text [] = refl
shown-is zero text (x ∷ name) = refl
shown-is (suc room) [] [] = refl
shown-is (suc room) [] (x ∷ name) = refl
shown-is (suc room) (c ∷ text) [] = ground arith
shown-is (suc room) (c ∷ text) (x ∷ name) = ground (arith, shown-is room text name)

should_remove-has_name :
    (w : System) (name : Bytes) (c : OsCertificate) → should_remove w name c ≡ has_name w name c
unfolding should_remove
should_remove-has_name w name c = ap (λ b. w.is_named c && b) (shown-is 127 c.display_name name)

-- Whether every certificate of the authority's name can be deleted.
abbrev pub all_delete : System → Bytes → List OsCertificate → Bool
all_delete w name [] = true
all_delete w name (c ∷ store) =
    let rest = all_delete w name store in (not (has_name w name c) || w.deletes c) && rest

module _ (w : System) (name : Bytes) where
  -- Whether a certificate stays, and how many do not.
  abbrev pub stays : OsCertificate → Bool
  stays c = not (has_name w name c)

  unfoldable pub removed : List OsCertificate → ℕ
  removed [] = 0
  removed (c ∷ cs) = let rest = removed cs in if has_name w name c then suc rest else rest

  keep-append :
      (xs ys : List OsCertificate) → keep stays (xs ++ ys) ≡ keep stays xs ++ keep stays ys
  unfolding keep
  keep-append [] ys = refl
  keep-append (x ∷ xs) ys = ground (arith, keep-append xs ys)

  removed-append : (xs ys : List OsCertificate) → removed (xs ++ ys) ≡ removed xs + removed ys
  unfolding removed
  removed-append [] ys = omega arith
  removed-append (x ∷ xs) ys = ground (arith, removed-append xs ys)

  -- Enough fuel for the certificates that are left, where the store has at most `n` of them.
  abbrev need : ℕ → List OsCertificate → ℕ
  need n left = removed left * (n + 1) + length left

  keep-none : (seen : List OsCertificate) → removed seen ≡ 0 → keep stays seen ≡ seen
  unfolding keep removed
  keep-none [] r = refl
  keep-none (x ∷ xs) r = ground (arith, keep-none xs)

  keep-gone :
      (seen : List OsCertificate) (c : OsCertificate) (left : List OsCertificate)
      → has_name w name c ≡ true
      → keep stays (seen ++ (c ∷ left)) ≡ keep stays (seen ++ left)
  unfolding keep
  keep-gone seen c left gone =
      keep-append seen (c ∷ left)
      ∙ (ap (λ l. keep stays seen ++ l) (ground (arith, gone)) ∙ sym (keep-append seen left))

  need_again :
      (fuel n : ℕ) (seen : List OsCertificate) (c : OsCertificate) (left : List OsCertificate)
      → length seen + length (c ∷ left) ≤ n
      → removed seen ≡ 0
      → has_name w name c ≡ true
      → need n (c ∷ left) < suc fuel
      → need n (seen ++ left) < fuel
  unfolding removed
  need_again fuel n seen c left h r gone k =
      let one : removed (c ∷ left) ≡ suc (removed left) = ground (arith, gone) in
      let k' : suc (removed left) * (n + 1) + length (c ∷ left) < suc fuel =
        subst (λ x. x * (n + 1) + length (c ∷ left) < suc fuel) one k in
      let same : removed (seen ++ left) ≡ removed left =
        removed-append seen left ∙ omega (arith, r) in
      rw same (omega (arith, k', suc_times (removed left) (n + 1), length-append {0} seen left))

  need_further :
      (fuel n : ℕ) (c : OsCertificate) (left : List OsCertificate)
      → has_name w name c ≡ false
      → need n (c ∷ left) < suc fuel
      → need n left < fuel
  unfolding removed
  need_further fuel n c left kept k =
      let one : removed (c ∷ left) ≡ removed left = ground (arith, kept) in
      let k' : removed left * (n + 1) + length (c ∷ left) < suc fuel =
        subst (λ x. x * (n + 1) + length (c ∷ left) < suc fuel) one k in
      omega (arith, k')

  removed-le : (store : List OsCertificate) → removed store ≤ length store
  unfolding removed
  removed-le [] = omega arith
  removed-le (x ∷ xs) = ground (arith, removed-le xs)

  need_bound :
      (store : List OsCertificate) (fuel : ℕ)
      → (length store + 1) * (length store + 1) ≤ fuel
      → need (length store) store < fuel
  need_bound store fuel n = bounded (removed store) (length store) fuel (removed-le store) n

  -- What `RevokeOsTrust` may leave of a store: the certificates with other names as they were; where
  -- nothing is thrown, just these; and it is thrown just if one of the others cannot be deleted.
  abbrev Revoked : List OsCertificate → List OsCertificate × Bool → Type 0
  Revoked store r =
      (keep stays r.0 ≡ keep stays store)
      × (r.1 ≡ true → r.0 ≡ keep stays store)
      × (r.1 ≡ all_delete w name store)

  abbrev EndsRevoked : List OsCertificate → Option (List OsCertificate × Bool) → Type 0
  EndsRevoked store o = (r : List OsCertificate × Bool) × (o ≡ some r) × Revoked store r

  all_delete-none : (seen : List OsCertificate) → removed seen ≡ 0 → all_delete w name seen ≡ true
  unfolding removed
  all_delete-none [] r = refl
  all_delete-none (x ∷ xs) r = ground (arith, all_delete-none xs)

  all_delete-gone :
      (seen : List OsCertificate) (c : OsCertificate) (left : List OsCertificate)
      → w.deletes c ≡ true
      → all_delete w name (seen ++ (c ∷ left)) ≡ all_delete w name (seen ++ left)
  all_delete-gone [] c left d = ground arith
  all_delete-gone (x ∷ seen) c left d = ground (arith, all_delete-gone seen c left d)

  all_delete-refused :
      (seen : List OsCertificate) (c : OsCertificate) (left : List OsCertificate)
      → has_name w name c ≡ true
      → w.deletes c ≡ false
      → all_delete w name (seen ++ (c ∷ left)) ≡ false
  all_delete-refused [] c left gone d = ground arith
  all_delete-refused (x ∷ seen) c left gone d =
      ground (arith, all_delete-refused seen c left gone d)

  Revoked-gone :
      (seen : List OsCertificate) (c : OsCertificate) (left : List OsCertificate)
      (r : List OsCertificate × Bool)
      → has_name w name c ≡ true
      → w.deletes c ≡ true
      → Revoked (seen ++ left) r
      → Revoked (seen ++ (c ∷ left)) r
  Revoked-gone seen c left r gone d h =
      let same = sym (keep-gone seen c left gone) in
      (h.0 ∙ same, (λ e. h.1 e ∙ same), h.2 ∙ sym (all_delete-gone seen c left d))

  revoke_loop-Revoked :
      (fuel n : ℕ) (seen left : List OsCertificate)
      → length seen + length left ≤ n
      → removed seen ≡ 0
      → need n left < fuel
      → EndsRevoked (seen ++ left) (revoke_loop fuel w name seen left)
  unfolding revoke_loop removed
  revoke_loop-Revoked zero n seen left h r k = absurd (omega arith)
  revoke_loop-Revoked (suc fuel) n seen [] h r k =
      let whole = append-nil seen in
      (
        (seen, true),
        refl,
        (
          ap (keep stays) (sym whole),
          (λ _. sym (keep-none seen r) ∙ ap (keep stays) (sym whole)),
          sym (ap (all_delete w name) whole ∙ all_delete-none seen r),
        ),
      )
  revoke_loop-Revoked (suc fuel) n seen (c ∷ left) h r k = elim (Bool-cases (has_name w name c)) [
    | inl gone ↦
        let test = should_remove-has_name w name c ∙ gone in
        elim (Bool-cases (w.deletes c)) [
          | inl deleted ↦
              let enough : need n (seen ++ left) < fuel =
                need_again fuel n seen c left h r gone k in
              let short : 0 + length (seen ++ left) ≤ n =
                omega (arith, length-append {0} seen left) in
              let rest = revoke_loop-Revoked fuel n [] (seen ++ left) short refl enough in
              (
                rest.0,
                rw (test, deleted) rest.1,
                Revoked-gone seen c left rest.0 gone deleted rest.2,
              )
          | inr kept ↦ (
            (seen ++ (c ∷ left), false),
            rw (test, kept) refl,
            (refl, (λ e. cc), sym (all_delete-refused seen c left gone kept)),
          )
        ]
    | inr kept ↦
        let test = should_remove-has_name w name c ∙ kept in
        let next = seen ++ (c ∷ []) in
        let short : length next + length left ≤ n =
          omega (arith, length-append {0} seen (c ∷ [])) in
        let none_yet : removed next ≡ 0 = removed-append seen (c ∷ []) ∙ ground (arith, r) in
        let enough : need n left < fuel = need_further fuel n c left kept k in
        let rest = revoke_loop-Revoked fuel n next left short none_yet enough in
        (
          rest.0,
          rw test rest.1,
          subst (λ l. Revoked l rest.0) (append_assoc seen (c ∷ []) left) rest.2,
        )
  ]

revoke_os_trust-Revoked :
    (w : System) (name : Bytes) (store : List OsCertificate) (fuel : ℕ)
    → (length store + 1) * (length store + 1) ≤ fuel
    → w.opens ≡ true
    → EndsRevoked w name store (revoke_os_trust fuel w name store)
unfolding revoke_os_trust removed
revoke_os_trust-Revoked w name store fuel n o =
    subst
      (λ b.
        EndsRevoked w name store
          (if b then revoke_loop fuel w name [] store else some (store, false)))
      (sym o)
      (revoke_loop-Revoked w name fuel (length store) [] store (omega arith) refl
        (need_bound w name store fuel n))

-- How `EstablishOsTrust` ends, and with what in the system's store.
abbrev pub IsEstablished :
    System → Bytes → Bytes → List OsCertificate → List OsCertificate × Bool → Type 0
IsEstablished w name encoded store r =
    (r.1 ≡ (w.opens && all_delete w name store))
    × (r.1 ≡ true → r.0 ≡ w.add encoded (keep (λ c. not (has_name w name c)) store))
    × (r.1 ≡ false
        → keep (λ c. not (has_name w name c)) r.0 ≡ keep (λ c. not (has_name w name c)) store)

after_revoke-IsEstablished :
    (w : System) (name encoded : Bytes) (store : List OsCertificate) (r : List OsCertificate × Bool)
    → w.opens ≡ true
    → Revoked w name store r
    → IsEstablished w name encoded store (after_revoke w (some encoded) r)
unfolding after_revoke
after_revoke-IsEstablished w name encoded store (left, false) o h =
    (rw o h.2, (λ e. cc), (λ _. h.0))
after_revoke-IsEstablished w name encoded store (left, true) o h =
    rw o (h.2, (λ _. ap (w.add encoded) (h.1 refl)), (λ e. cc))

closed :
    (fuel : ℕ) (w : System) (name encoded : Bytes) (store : List OsCertificate)
    → w.opens ≡ false
    → establish_os_trust fuel w name (some encoded) store ≡ some (store, false)
unfolding establish_os_trust revoke_os_trust after_revoke
closed fuel w name encoded store o =
    ap
      (λ b. elim (if b then revoke_loop fuel w name [] store else some (store, false)) [
        | none ↦ none
        | some r ↦ some (after_revoke w (some encoded) r)
      ])
      o

-- `EstablishOsTrust` with an encoded certificate ends, after at most (n + 1)^2 rounds of its loop
-- for a store of n certificates. It returns true just if the system's store can be opened and every
-- certificate in it whose display name is the authority's can be deleted; a display name is
-- compared up to a NUL byte, in at most 127 bytes. Then it leaves the store without these
-- certificates, the others in their order, as the system has it after adding the authority; where
-- it throws, the certificates of other names are still as they were.
pub establish_os_trust-replaces :
    (w : System) (name encoded : Bytes) (store : List OsCertificate) (fuel : ℕ)
    → (length store + 1) * (length store + 1) ≤ fuel
    → (r : List OsCertificate × Bool) × (establish_os_trust fuel w name (some encoded) store
        ≡ some r)
      × IsEstablished w name encoded store r
unfolding establish_os_trust
establish_os_trust-replaces w name encoded store fuel n = elim (Bool-cases w.opens) [
  | inl o ↦
      let q = revoke_os_trust-Revoked w name store fuel n o in
      (
        after_revoke w (some encoded) q.0,
        rw (establish_os_trust, q.1) refl,
        after_revoke-IsEstablished w name encoded store q.0 o q.2,
      )
  | inr o ↦
      ((store, false), closed fuel w name encoded store o, (rw o refl, (λ e. cc), (λ _. refl)))
]
