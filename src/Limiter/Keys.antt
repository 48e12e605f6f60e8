-- ===== src/Limiter/Keys.antt =====
-- What the keys of the users are good for: the parts that go into a key come out again.
use mathlib.Core.List.{append_assoc, append_cancel_left, append_cancel_right}
use mathlib.Core.Option.{some-injective}
use oldxr.Base.{◌<◌, ◌≡◌, refl, sym, ap, ◌∙◌, ◌++◌, some, [], ◌∷◌, arith, ◌≢◌}
use oldxr.Base.Int.{ℤ}
use oldxr.Base.Text.{Str, itoa, atoi, after_last, strip_prefix, replace_first}
use oldxr.Base.Text.Decimal.{IsInt64, atoi-itoa, itoa-Without, itoa-ne-nil, after_last-append}
use oldxr.Limiter.Key.{bar, format_user_key, unique_key, device_lock, device_lock_shards}

format_user_key_parts :
    (tag email : Str) (uid : ℤ)
    → format_user_key tag email uid ≡ (tag ++ bar ∷ email) ++ bar ∷ itoa uid
unfolding format_user_key
format_user_key_parts tag email uid = simp append_assoc

pub after_last-format_user_key :
    (tag email : Str) (uid : ℤ) → after_last bar (format_user_key tag email uid) ≡ some (itoa uid)
after_last-format_user_key tag email uid =
    ap (after_last bar) (format_user_key_parts tag email uid)
    ∙ after_last-append bar (tag ++ bar ∷ email) (itoa uid) (itoa-Without bar uid (omega arith))

strip_prefix-append : (p s : Str) → strip_prefix p (p ++ s) ≡ some s
unfolding strip_prefix
strip_prefix-append [] s = refl
strip_prefix-append (c ∷ p) s = ground (arith, strip_prefix-append p s)

replace_first_prefix :
    (old new s r : Str) → strip_prefix old s ≡ some r → replace_first old new s ≡ new ++ r
unfolding replace_first
replace_first_prefix old new [] r h = ground arith
replace_first_prefix old new (c ∷ s) r h = ground arith

replace_first-append : (old new s : Str) → replace_first old new (old ++ s) ≡ new ++ s
replace_first-append old new s =
    replace_first_prefix old new (old ++ s) s (strip_prefix-append old s)

-- The limiter's key of a user names the user id after its last bar, where `Atoi` reads it.
pub uid_of_key :
    (tag email : Str) (uid : ℤ)
    → IsInt64 uid
    → (s : Str) × (after_last bar (format_user_key tag email uid) ≡ some s)
      × (s ≢ [])
      × (atoi s ≡ some uid)
uid_of_key tag email uid h =
    (itoa uid, after_last-format_user_key tag email uid, itoa-ne-nil uid, atoi-itoa uid h)

-- Within an inbound two users with the same key are the same user: the keys agree only if email
-- and id do, whatever bytes the email holds.
pub format_user_key_injective :
    (tag email email' : Str) (uid uid' : ℤ)
    → IsInt64 uid
    → IsInt64 uid'
    → format_user_key tag email uid ≡ format_user_key tag email' uid'
    → (email ≡ email') × (uid ≡ uid')
format_user_key_injective tag email email' uid uid' h h' e = (same_email, same_uid)
  where
    digits : itoa uid ≡ itoa uid'
    digits = some-injective _ _ (
        sym (after_last-format_user_key tag email uid)
        ∙ ap (after_last bar) e
        ∙ after_last-format_user_key tag email' uid')

    same_uid : uid ≡ uid'
    same_uid = some-injective _ _ (sym (atoi-itoa uid h) ∙ ap atoi digits ∙ atoi-itoa uid' h')

    split : (tag ++ bar ∷ email) ++ bar ∷ itoa uid ≡ (tag ++ bar ∷ email') ++ bar ∷ itoa uid
    split =
        sym (format_user_key_parts tag email uid)
        ∙ e
        ∙ format_user_key_parts tag email' uid'
        ∙ ap (λ s. (tag ++ bar ∷ email') ++ bar ∷ s) (sym digits)

    same_email : email ≡ email'
    same_email = append_cancel_left (tag ++ bar ∷ []) email email' (
        append_assoc tag (bar ∷ []) email
        ∙ append_cancel_right _ _ _ split
        ∙ sym (append_assoc tag (bar ∷ []) email'))

-- The key of the global limit has the device limit for the tag: nodes that give a user the same
-- limit count the devices of that user together, whatever their tags.
pub unique_key_shared :
    (tag tag' email : Str) (uid limit : ℤ)
    → unique_key (format_user_key tag email uid) tag limit
      ≡ unique_key (format_user_key tag' email uid) tag' limit
unfolding unique_key
unique_key_shared tag tag' email uid limit = drop_tag tag ∙ sym (drop_tag tag')
  where
    drop_tag :
        (t : Str)
        → replace_first t (itoa limit) (format_user_key t email uid)
          ≡ itoa limit ++ (bar ∷ email ++ bar ∷ itoa uid)
    drop_tag t =
        ap (replace_first t (itoa limit))
          (format_user_key_parts t email uid ∙ append_assoc t (bar ∷ email) (bar ∷ itoa uid))
        ∙ replace_first-append t (itoa limit) (bar ∷ email ++ bar ∷ itoa uid)

-- Every key has a lock: the hash is an index of the array of locks.
pub device_lock-lt : (key : Str) → device_lock key < device_lock_shards
unfolding device_lock
device_lock-lt key = omega arith
