-- ===== src/Config/Seeding.antt =====
-- What the .env file adds to the environment (internal/config/config.go).
use sftp_relay.Base.{
  Text, List, [], ◌∷◌, ◌||◌, Option, none, some, text_eq, text_eq_iff, if◌then◌else◌, ◌≡◌, refl,
  sym, ap, ◌∙◌, inl, inr, Bool-cases, Option-cases, ok, bind_ok, ok_injective,
}
use sftp_relay.Config.{
  Env, lookup_env, set_env, holds_equals, holds_null, parse_line, seed, load_lines,
}

-- The first of two that is there.
abbrev pub or_else : Option Text → Option Text → Option Text
or_else none b = b
or_else (some a) b = some a

-- What the first line that sets a variable sets it to.
abbrev pub value_in : Text → Option (Text × Text) → Option Text → Option Text
value_in k none later = later
value_in k (some (j, v)) later = if text_eq j k then some v else later

abbrev pub first_value : Text → List Text → Option Text
first_value k [] = none
first_value k (l ∷ ls) = let rest = first_value k ls in value_in k (parse_line l) rest

or_else_assoc : (a b c : Option Text) → or_else (or_else a b) c ≡ or_else a (or_else b c)
or_else_assoc none b c = refl
or_else_assoc (some a) b c = refl

set_env-lookup_env :
    (j v : Text) (env env' : Env) (k : Text)
    → set_env j v env ≡ ok env'
    → lookup_env k env' ≡ (if text_eq j k then some v else lookup_env k env)
unfolding set_env lookup_env
set_env-lookup_env j v env env' k h =
    elim (Bool-cases (text_eq j [] || (holds_equals j || (holds_null j || holds_null v)))) [
      | inl e ↦ cc (rw e at h)
      | inr e ↦ ap (lookup_env k) (sym (ok_injective ((j, v) ∷ env) env' (rw e at h)))
    ]

or_else-none : (a : Option Text) → or_else a none ≡ a
or_else-none none = refl
or_else-none (some a) = refl

seed-lookup_env :
    (o : Option (Text × Text)) (env env' : Env) (k : Text)
    → seed o env ≡ ok env'
    → lookup_env k env' ≡ or_else (lookup_env k env) (value_in k o none)
seed-lookup_env none env env' k h =
    ap (lookup_env k) (sym (ok_injective env env' h)) ∙ sym (or_else-none (lookup_env k env))
seed-lookup_env (some (j, v)) env env' k h = elim (Bool-cases (text_eq j k)) [
  | inl e ↦
      let same = (text_eq_iff j k).0 e in
      elim (Option-cases (lookup_env j env)) [
        | inl n ↦
            set_env-lookup_env j v env env' k (rw (seed, n) at h)
            ∙ rw (e, ap (λ q. lookup_env q env) (sym same) ∙ n) refl
        | inr (old, n) ↦
            ap (lookup_env k) (sym (ok_injective env env' (rw (seed, n) at h)))
            ∙ rw (ap (λ q. lookup_env q env) (sym same) ∙ n) refl
      ]
  | inr e ↦ elim (Option-cases (lookup_env j env)) [
    | inl n ↦
        set_env-lookup_env j v env env' k (rw (seed, n) at h)
        ∙ rw e (sym (or_else-none (lookup_env k env)))
    | inr (old, n) ↦
        ap (lookup_env k) (sym (ok_injective env env' (rw (seed, n) at h)))
        ∙ rw e (sym (or_else-none (lookup_env k env)))
  ]
]

value_in_later :
    (k : Text) (o : Option (Text × Text)) (later : Option Text)
    → or_else (value_in k o none) later ≡ value_in k o later
value_in_later k none later = refl
value_in_later k (some (j, v)) later = elim (Bool-cases (text_eq j k)) [
  | inl e ↦ rw e refl
  | inr e ↦ rw e refl
]

-- Where the file loads, a variable that was set keeps its value, and any other has the value of the
-- first line that sets it, or stays unset.
pub load_lines-lookup_env :
    (ls : List Text) (env env' : Env) (k : Text)
    → load_lines ls env ≡ ok env'
    → lookup_env k env' ≡ or_else (lookup_env k env) (first_value k ls)
unfolding load_lines
load_lines-lookup_env [] env env' k h =
    ap (lookup_env k) (sym (ok_injective env env' h)) ∙ sym (or_else-none (lookup_env k env))
load_lines-lookup_env (l ∷ ls) env env' k h =
    let (mid, first, rest) = bind_ok (seed (parse_line l) env) (load_lines ls) env' h in
    load_lines-lookup_env ls mid env' k rest
    ∙ ap (λ o. or_else o (first_value k ls)) (seed-lookup_env (parse_line l) env mid k first)
    ∙ or_else_assoc (lookup_env k env) (value_in k (parse_line l) none) (first_value k ls)
    ∙ ap (or_else (lookup_env k env)) (value_in_later k (parse_line l) (first_value k ls))
