-- ===== src/ControlServer/Answers.antt =====
-- The handlers of the control API: what each of their answers can change.
use open_prlx.Prelude.{
  ◌≡◌, ◌⊎◌, inl, inr, refl, ◌&&◌, ◌||◌, not, if◌then◌else◌, Bool, true, false, Option, none, some,
  [], ◌∷◌, ℤ,
}
use open_prlx.Wire.{Bytes}
use open_prlx.Context.{
  Context, is_valid_channel, is_valid_width, merge_session_config, request_start, request_stop,
  request_tune, request_key, or_old,
}
use open_prlx.ControlServer.Text.{json_find_int, json_find_string}
use open_prlx.ControlServer.{
  Vault, Response, plain, holds, is_keep, or_keep, is_busy, is_streaming, handle_start, tune_to,
  handle_tune, handle_key, channel_field, width_field, sealed_field,
}

-- A tune that is staged, and the channel and width of the session, are in range.
pub record IsSound (ctx : Context) : Type 0 where
  pub channel : is_valid_channel ctx.session_cfg.channel ≡ true
  pub width : is_valid_width ctx.session_cfg.width ≡ true
  pub tune :
      (ctx.reqs.tune_pending ≡ false)
      ⊎ ((is_valid_channel ctx.reqs.pending_channel ≡ true)
          × ((is_keep ctx.reqs.pending_width || is_valid_width ctx.reqs.pending_width) ≡ true))

-- The members that say how far the session is.
abbrev pub SameLife : Context → Context → Type 0
SameLife ctx next =
    (next.state ≡ ctx.state)
    × (next.should_stop ≡ ctx.should_stop)
    × (next.capture_finished ≡ ctx.capture_finished)

-- A response that is no success leaves the context as it was, and every one leaves it sound and the
-- session where it was.
pub record Answered (ctx : Context) (r : Context × Response) : Type 0 where
  pub refused : (r.1.code ≡ 200) ⊎ (r.1.code ≡ 202) ⊎ (r.0 ≡ ctx)
  pub sound : IsSound ctx → IsSound r.0
  pub life : SameLife ctx r.0

pub Answered-same : (ctx : Context) (r : Response) → Answered ctx (ctx, r)
Answered-same ctx r = record { refused = inr (inr refl); sound = λ h. h; life = (refl, refl, refl) }

-- By the branches of a test.
pub Answered-if :
    {ctx : Context} (b : Bool) {x y : Context × Response}
    → (b ≡ true → Answered ctx x)
    → (b ≡ false → Answered ctx y)
    → Answered ctx (if b then x else y)
Answered-if true f g = f refl
Answered-if false f g = g refl

or_old-holds :
    (test : ℤ → Bool) (o : Option ℤ) (old : ℤ)
    → holds test o ≡ true
    → test old ≡ true
    → test (or_old o old) ≡ true
or_old-holds test none old h was = was
or_old-holds test (some n) old h was = h

both_ok : (p q : Bool) → (not p || not q) ≡ false → (p ≡ true) × (q ≡ true)
both_ok true true e = (refl, refl)
both_ok true false e = absurd (cc e)
both_ok false q e = absurd (cc e)

keep_ok : (p k w : Bool) → (not p || (not k && not w)) ≡ false → (p ≡ true) × ((k || w) ≡ true)
keep_ok true true w e = (refl, refl)
keep_ok true false true e = (refl, refl)
keep_ok true false false e = absurd (cc e)
keep_ok false k w e = absurd (cc e)

pub handle_start-Answered : (ctx : Context) (body : Bytes) → Answered ctx (handle_start ctx body)
unfolding handle_start merge_session_config request_start
handle_start-Answered ctx body =
    let channel = json_find_int body channel_field in
    let width = json_find_int body width_field in
    Answered-if (is_busy ctx.state) (λ _. Answered-same ctx (plain 409))
      λ _.
        Answered-if (not (holds is_valid_channel channel) || not (holds is_valid_width width))
          (λ _. Answered-same ctx (plain 400))
          λ ok. record {
            refused = inr (inl refl);
            life = (refl, refl, refl);
            sound = λ h. record {
              channel =
                  or_old-holds is_valid_channel channel ctx.session_cfg.channel
                    (both_ok (holds is_valid_channel channel) (holds is_valid_width width) ok).0
                    h.channel;
              width =
                  or_old-holds is_valid_width width ctx.session_cfg.width
                    (both_ok (holds is_valid_channel channel) (holds is_valid_width width) ok).1
                    h.width;
              tune = h.tune;
            };
          }

tune_to-Answered : (ctx : Context) (channel width : ℤ) → Answered ctx (tune_to ctx channel width)
unfolding tune_to request_tune
tune_to-Answered ctx channel width =
    Answered-if
      (not (is_valid_channel channel) || (not (is_keep width) && not (is_valid_width width)))
      (λ _. Answered-same ctx (plain 400))
      λ ok. record {
        refused = inr (inl refl);
        life = (refl, refl, refl);
        sound = λ h. record {
          channel = h.channel;
          width = h.width;
          tune = inr (keep_ok (is_valid_channel channel) (is_keep width) (is_valid_width width) ok);
        };
      }

pub handle_tune-Answered : (ctx : Context) (body : Bytes) → Answered ctx (handle_tune ctx body)
unfolding handle_tune
handle_tune-Answered ctx body =
    Answered-if (not (is_streaming ctx.state)) (λ _. Answered-same ctx (plain 409))
      λ _. go (json_find_int body channel_field)
  where
    go :
        (o : Option ℤ)
        → Answered ctx (elim o [
          | none ↦ (ctx, plain 400)
          | some channel ↦ tune_to ctx channel (or_keep (json_find_int body width_field))
        ])
    go none = Answered-same ctx (plain 400)
    go (some channel) = tune_to-Answered ctx channel (or_keep (json_find_int body width_field))

pub handle_key-Answered :
    (vault : Vault) (ctx : Context) (body : Bytes) → Answered ctx (handle_key vault ctx body)
unfolding handle_key request_key
handle_key-Answered vault ctx body =
    Answered-if (not vault.ok) (λ _. Answered-same ctx (plain 503))
      λ _. sealed (json_find_string body sealed_field)
  where
    opened :
        (o : Option Bytes)
        → Answered ctx
            (elim o [ none ↦ (ctx, plain 400) | some key ↦ (request_key ctx key, plain 202) ])
    opened none = Answered-same ctx (plain 400)
    opened (some key) = record {
      refused = inr (inl refl);
      life = (refl, refl, refl);
      sound = λ h. record { channel = h.channel; width = h.width; tune = h.tune };
    }

    sealed :
        (o : Option Bytes)
        → Answered ctx (elim o [
          | none ↦ (ctx, plain 400)
          | some [] ↦ (ctx, plain 400)
          | some (c ∷ b64) ↦ elim (vault.open_sealed (c ∷ b64)) [
            | none ↦ (ctx, plain 400)
            | some key ↦ (request_key ctx key, plain 202)
          ]
        ])
    sealed none = Answered-same ctx (plain 400)
    sealed (some []) = Answered-same ctx (plain 400)
    sealed (some (c ∷ b64)) = opened (vault.open_sealed (c ∷ b64))

pub stop-Answered : (ctx : Context) → Answered ctx (request_stop ctx, plain 202)
unfolding request_stop
stop-Answered ctx = record {
  refused = inr (inl refl);
  life = (refl, refl, refl);
  sound = λ h. record { channel = h.channel; width = h.width; tune = h.tune };
}
