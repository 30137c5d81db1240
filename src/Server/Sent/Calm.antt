-- ===== src/Server/Sent/Calm.antt =====
-- Handlers and parts of handlers that publish nothing and leave the devices as they are.
use trust_server.Common.{
  ◌≡◌, refl, subst, ◌∙◌, String, List, [], ◌∷◌, inl, inr, Bool-cases, Option-cases, find?,
}
use trust_server.Exec.{Result, ok, err, for_each, continue}
use trust_server.Storage.Backend.{Sql, execute}
use trust_server.Storage.AuthRepo
use trust_server.Storage.AuthRepo.{account_has_name, active_device_of}
use trust_server.Server.Error.{AppError}
use trust_server.Server.World.{World, App, query}
use trust_server.Server.Headers.{Headers}
use trust_server.Server.Auth.{authed}
use trust_server.Server.Router.Sessions.{authed-calls}
use trust_server.Server.Messaging.{find_target, decode_ciphertext}
use trust_server.Server.Sent.Quiet.{IsQuiet}

-- nothing was published, and the devices and the outside are the same
abbrev pub Calm : World → World → Type 0
Calm w w' =
    (w'.published ≡ w.published)
    × (w'.backend.tables.devices ≡ w.backend.tables.devices)
    × (w'.backend.outside ≡ w.backend.outside)

pub record IsCalm {A : Type 0} (m : App A) : Type 0 where
  pub at : (w : World) → Calm w (m w).1

pub Calm-ok :
    {A : Type 0} (m : App A) (w w' : World) (a : A) → IsCalm m → m w ≡ (ok a, w') → Calm w w'
Calm-ok {A} m w w' a c e = subst (λ (r : Result AppError A × World). Calm w r.1) e (c.at w)

pub Calm-trans : (w w' w'' : World) → Calm w w' → Calm w' w'' → Calm w w''
Calm-trans w w' w'' (p, d, o) (p', d', o') = (p' ∙ p, d' ∙ d, o' ∙ o)

pub IsCalm-query : {A : Type 0} (m : Sql A) → IsQuiet m → IsCalm (query m)
IsCalm-query m q = record { at = λ w. let (o, d) = q.at w.backend in (refl, d, o) }

pub IsCalm-authed : (headers : Headers) → IsCalm (authed headers)
IsCalm-authed headers = record {
  at = λ w. let (k, e) = authed-calls headers w in rw e (refl, refl, refl);
}

pub IsCalm-find_target : (name : String) → IsCalm (find_target name)
unfolding find_target AuthRepo.find_account_by_username execute
IsCalm-find_target name = record {
  at = λ w. elim (Bool-cases (w.backend.outside.fault w.backend.calls)) [
    | inl down ↦ rw down (refl, refl, refl)
    | inr up ↦ elim (Option-cases (find? (account_has_name name) w.backend.tables.accounts)) [
      | inl f ↦ rw (up, f) (refl, refl, refl)
      | inr (a, f) ↦ rw (up, f) (refl, refl, refl)
    ]
  ];
}

pub IsCalm-decode : (text : String) → IsCalm (decode_ciphertext text)
IsCalm-decode text = record {
  at = λ w. elim (Option-cases (w.backend.outside.base64_decode text)) [
    | inl d ↦ rw d (refl, refl, refl)
    | inr (bytes, d) ↦ rw d (refl, refl, refl)
  ];
}

continue-Calm :
    {A B : Type 0} (w : World) (r : Result AppError A × World) (f : A → App B)
    → Calm w r.1
    → ((a : A) → IsCalm (f a))
    → Calm w (continue r.0 f r.1).1
continue-Calm w (ok a, w') f c k = Calm-trans w w' (f a w').1 c ((k a).at w')
continue-Calm w (err e, w') f c k = c

pub IsCalm-for_each :
    {A : Type 0} (xs : List A) (body : A → App (Unit {0}))
    → ((a : A) → IsCalm (body a))
    → IsCalm (for_each xs body)
unfolding for_each
IsCalm-for_each [] body k = record { at = λ w. (refl, refl, refl) }
IsCalm-for_each (x ∷ xs) body k = record {
  at = λ w.
      continue-Calm w (body x w) (λ _. for_each xs body) ((k x).at w)
        λ _. IsCalm-for_each xs body k;
}
