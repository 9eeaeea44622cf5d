-- ===== src/Startup/Boot.antt =====
-- cmd/api/main.go: when the process comes to serve, and with what.
use go_wallet_ledger.Base.{
  String, ◌≡◌, refl, Option, none, some, Bool, true, false, ◌==◌, Bool-cases, inl, inr, arith, ◌⊎◌,
  ap, sym, ◌∙◌, some_eq, String_discrete,
}
use go_wallet_ledger.Startup.{
  Host, Running, Try, done, failed, StartError, get_env, config_of, load_config, connect_database,
  connect_redis, new_producer, new_logger, then_try, value_or, boot,
}

-- What the machine must have for the process to serve.
pub record IsReady (h : Host) : Type 0 where
  pub url : String
  pub named : h.lookup_env "DATABASE_URL" ≡ some url
  pub given : (url == "") ≡ false
  pub parsed : h.parse_database_url url ≡ true
  pub pooled : h.new_pool url ≡ true
  pub answered : h.ping_database url ≡ true
  pub redis_parsed : h.parse_redis_url (config_of h).redis_url ≡ true
  pub redis_answered : h.ping_redis (config_of h).redis_url ≡ true

-- It serves, with its configuration, behind the rate limiter, with the reconciliation, and with the
-- outbox worker if there is a Kafka producer.
abbrev pub serving : Host → Running
serving h = record {
  config = config_of h;
  logger = new_logger (config_of h).env;
  has_redis = true;
  outbox_worker = new_producer h (config_of h).kafka_broker;
  reconciliation_worker = true;
}

-- The process serves, and all that it needs is there, or it exits, and something is not.
abbrev pub Boots : Host → Try Running → Type 0
Boots h r =
    (IsReady h × (r ≡ done (serving h))) ⊎ ((x : StartError) × (r ≡ failed x) × (¬ IsReady h))

module _ (h : Host) where
  abbrev url_of : String
  url_of = (config_of h).database_url

  -- The url that is asked for is the one that is read.
  read_url : (ready : IsReady h) → url_of ≡ ready.url
  unfolding get_env
  read_url ready = ap (λ o. value_or o "") ready.named

  redis-Boots :
      (url : String)
      → h.lookup_env "DATABASE_URL" ≡ some url
      → (url == "") ≡ false
      → h.parse_database_url url ≡ true
      → h.new_pool url ≡ true
      → h.ping_database url ≡ true
      → Boots h (then_try (connect_redis h (config_of h).redis_url) λ _. done (serving h))
  unfolding connect_redis
  redis-Boots url named given parsed pooled answered =
      elim (Bool-cases (h.parse_redis_url (config_of h).redis_url)) [
        | inr bad ↦
            rw bad (
              inr (StartError.redis_url_invalid, refl, λ ready. ground (arith, ready.redis_parsed)))
        | inl good ↦ elim (Bool-cases (h.ping_redis (config_of h).redis_url)) [
          | inr down ↦
              rw (good, down)
                (inr (
                  StartError.redis_unreachable,
                  refl,
                  λ ready. ground (arith, ready.redis_answered),
                ))
          | inl up ↦
              rw (good, up)
                (inl (
                  record {
                    url = url;
                    named = named;
                    given = given;
                    parsed = parsed;
                    pooled = pooled;
                    answered = answered;
                    redis_parsed = good;
                    redis_answered = up;
                  },
                  refl,
                ))
        ]
      ]

  -- A condition on the url that fails.
  unready :
      (p : String → Bool) (url : String)
      → h.lookup_env "DATABASE_URL" ≡ some url
      → p url ≡ false
      → ((ready : IsReady h) → p ready.url ≡ true)
      → ¬ IsReady h
  unready p url named fails needs ready =
      let same : ready.url ≡ url = some_eq (sym ready.named ∙ named) in
      let no : p ready.url ≡ false = ap p same ∙ fails in
      let clash : true ≡ false = sym (needs ready) ∙ no in cc clash

  database-Boots :
      (url : String)
      → h.lookup_env "DATABASE_URL" ≡ some url
      → (url == "") ≡ false
      → Boots h (
          then_try
            (connect_database h url)
            λ _. then_try (connect_redis h (config_of h).redis_url) λ _. done (serving h))
  unfolding connect_database
  database-Boots url named given = elim (Bool-cases (h.parse_database_url url)) [
    | inr bad ↦ rw bad (
        inr (
          StartError.database_config_invalid,
          refl,
          unready h.parse_database_url url named bad λ ready. ready.parsed,
        ))
    | inl good ↦ elim (Bool-cases (h.new_pool url)) [
      | inr none_made ↦
          rw (good, none_made)
            (inr (
              StartError.pool_failed,
              refl,
              unready h.new_pool url named none_made λ ready. ready.pooled,
            ))
      | inl pooled ↦ elim (Bool-cases (h.ping_database url)) [
        | inr down ↦
            rw (good, pooled, down)
              (inr (
                StartError.database_unreachable,
                refl,
                unready h.ping_database url named down λ ready. ready.answered,
              ))
        | inl up ↦ rw (good, pooled, up) (redis-Boots url named given good pooled up)
      ]
    ]
  ]

  named_value : (o : Option String) → (value_or o "" == "") ≡ false → o ≡ some (value_or o "")
  unfolding String_discrete
  named_value none given = cc
  named_value (some url) given = refl

  named_url : (url_of == "") ≡ false → h.lookup_env "DATABASE_URL" ≡ some url_of
  unfolding get_env
  named_url given = named_value (h.lookup_env "DATABASE_URL") given

  no_url : (url_of == "") ≡ true → ¬ IsReady h
  no_url empty ready =
      let no : (url_of == "") ≡ false = ap (λ u. u == "") (read_url ready) ∙ ready.given in
      let clash : true ≡ false = sym empty ∙ no in cc clash

-- The process comes to serve, with its configuration, behind the rate limiter, with the reconciliation,
-- and with the outbox worker if Kafka answers, exactly when DATABASE_URL is set and not empty, both urls
-- can be read, and the pool and both services answer. Otherwise it exits with an error.
pub boot-Boots : (h : Host) → Boots h (boot h)
unfolding boot load_config
boot-Boots h = elim (Bool-cases (url_of h == "")) [
  | inl empty ↦ rw empty (inr (StartError.database_url_required, refl, no_url h empty))
  | inr given ↦ rw given (database-Boots h (url_of h) (named_url h given) given)
]
