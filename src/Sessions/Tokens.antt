-- ===== src/Sessions/Tokens.antt =====
-- The session token that was issued, parsed again.
use conexus.Prelude.{
  ℕ, ◌≡◌, refl, true, false, Option, none, some, [], ◌∷◌, ◌++◌, ltb, ==_refl, if◌then◌else◌, arith,
  sym, inl, inr, Bool-cases,
}
use conexus.Text.{Text, is_blank}
use conexus.Text.Laws.{text_eq_refl}
use conexus.Text.Splitting.{split, lacks, split-append, split-lacks}
use conexus.Text.Decimal.{decimal, read_int-decimal, lacks-digits, all_digits-decimal}
use conexus.Http.{response, response_inj, exception-not_response}
use conexus.Sessions.{
  TokenCodec, IsTokenCodec, text_or_empty, non_empty, payload_of, expiry, issue_admin_session_token,
  split_once, session_of_parts, session_if, parse_admin_session_token,
}

split_once-append :
    (c : ℕ) (s t : Text) → lacks c s ≡ true → split_once c (s ++ c ∷ t) ≡ some (s, t)
unfolding split_once lacks
split_once-append c [] t h = rw (==_refl c) refl
split_once-append c (d ∷ s) t h = ground (arith, h, split_once-append c s t)

-- An id that the token can carry: not empty and without a bar, or no id at all.
abbrev pub IsTokenId : Option Text → Type 0
IsTokenId none = Unit
IsTokenId (some t) = (is_blank t ≡ false) × (lacks b'|' t ≡ true)

id_lacks : (id : Option Text) → IsTokenId id → lacks b'|' (text_or_empty id) ≡ true
unfolding lacks
id_lacks none h = refl
id_lacks (some t) h = h.1

id_kept : (id : Option Text) → IsTokenId id → non_empty (text_or_empty id) ≡ id
id_kept none h = refl
id_kept (some t) h = rw (h.0) refl

split-payload :
    (username : Text) (id : Option Text) (exp : ℕ)
    → lacks b'|' username ≡ true
    → IsTokenId id
    → split b'|' (payload_of username id exp) ≡ username ∷ text_or_empty id ∷ decimal exp ∷ []
split-payload username id exp u i =
    rw
      (
        payload_of,
        split-append b'|' username (text_or_empty id ++ b'|' ∷ decimal exp) u,
        split-append b'|' (text_or_empty id) (decimal exp) (id_lacks id i),
        split-lacks b'|' (decimal exp)
            (lacks-digits b'|' (decimal exp) refl (all_digits-decimal exp)),
      )
      refl

session_of_payload :
    (later : ℕ) (username : Text) (id : Option Text) (exp : ℕ)
    → lacks b'|' username ≡ true
    → IsTokenId id
    → session_if later (payload_of username id exp) true
      ≡ (if ltb exp later then none else some (record { username = username; admin_user_id = id }))
unfolding session_of_parts
session_of_payload later username id exp u i =
    rw (split-payload username id exp u i, id_kept id i, read_int-decimal exp) refl

-- What a token parses to that was issued with an expiry.
parse_issued :
    (k : TokenCodec) (later : ℕ) (payload : Text)
    → IsTokenCodec k
    → parse_admin_session_token k later (k.b64_encode payload ++ b'.' ∷ k.sign payload)
      ≡ response (session_if later payload true)
unfolding parse_admin_session_token
parse_issued k later payload h =
    rw
      (
        parse_admin_session_token,
        split_once-append b'.' (k.b64_encode payload) (k.sign payload) (h.no_dot payload),
        h.decodes payload,
        h.ascii_sign payload,
        text_eq_refl (k.sign payload),
      )
      refl

-- With the documented behaviour of the codec, and an id that is not empty and has no bar, or no id:
-- a token that was issued parses to the session of its user until its time is over, and to none
-- afterwards.
pub session_round_trip :
    (k : TokenCodec) (ttl_hours now later : ℕ) (username : Text) (id : Option Text) (token : Text)
    → IsTokenCodec k
    → IsTokenId id
    → issue_admin_session_token k ttl_hours now username id ≡ response token
    → parse_admin_session_token k later token
      ≡ response (
          if ltb (expiry ttl_hours now) later
          then none
          else some (record { username = username; admin_user_id = id }))
unfolding issue_admin_session_token
session_round_trip k ttl_hours now later username id token h i issued =
    let exp = expiry ttl_hours now in
    elim (Bool-cases (lacks b'|' username)) [
      | inl named ↦
          rw
            (
              sym (response_inj (rw named at issued)),
              parse_issued k later (payload_of username id exp) h,
              session_of_payload later username id exp named i,
            )
            refl
      | inr barred ↦ absurd (exception-not_response _ _ token (rw barred at issued))
    ]
