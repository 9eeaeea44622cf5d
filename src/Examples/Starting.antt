-- ===== src/Examples/Starting.antt =====
-- The start of the process at a concrete machine.
use go_wallet_ledger.Base.{none, some, true, false, ◌==◌, if◌then◌else◌, ◌≡◌, refl, String_discrete}
use go_wallet_ledger.Startup.{Host, boot, done, get_env, failed, StartError}
use go_wallet_ledger.Startup.Boot.{Boots, serving, boot-Boots}

-- All answer but Kafka, and only the database's url is set.
abbrev machine : Host
machine = record {
  lookup_env = λ key. if key == "DATABASE_URL" then some "postgres://ledger" else none;
  parse_database_url = λ url. true;
  new_pool = λ url. true;
  ping_database = λ url. true;
  parse_redis_url = λ url. true;
  ping_redis = λ url. true;
  new_kafka_client = λ broker. true;
  ping_kafka = λ broker. false;
}

boot-Boots_example : Boots machine (boot machine)
boot-Boots_example = boot-Boots machine

comes_up : boot machine ≡ done (serving machine)
unfolding boot get_env String_discrete
comes_up = refl

no_outbox_worker : (serving machine).outbox_worker ≡ false
unfolding boot get_env String_discrete
no_outbox_worker = refl

-- Without an environment there is no url.
stays_down :
    boot (record machine { lookup_env = λ key. none }) ≡ failed StartError.database_url_required
unfolding boot get_env String_discrete
stays_down = refl
