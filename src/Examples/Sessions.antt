-- ===== src/Examples/Sessions.antt =====
-- A session that is opened and closed, and a managed sandbox with a relay policy.
use ucloud_sandboxes_sdk.Prelude.{
  ℕ, String, true, false, none, some, Option, [], ◌∷◌, pos, ◌==◌, ◌≡◌, refl,
}
use ucloud_sandboxes_sdk.Json.{Json, Fields, end, str, int, obj, field}
use ucloud_sandboxes_sdk.Errors.{Exception, Result, ok}
use ucloud_sandboxes_sdk.Relay.Values.{look, required_string, validate_registration_token}
use ucloud_sandboxes_sdk.Relay.Registration.{
  registered_token, remember_registration, registration_token, forget_registration,
}
use ucloud_sandboxes_sdk.Relay.Commit.{repeat_call, unregister_rollout}
use ucloud_sandboxes_sdk.Relay.Session.{
  Session, token_from_response, open_session, close_session, open_session-close_session,
}
use ucloud_sandboxes_sdk.Spec.Network.{Policy, make_policy, policy_from_dict}
use ucloud_sandboxes_sdk.Spec.Sandbox.{Spec, spec_fields, spec_to_dict}
use ucloud_sandboxes_sdk.Spec.Agent.{require_agent_record, spec_to_dict-require_agent}
use ucloud_sandboxes_sdk.Examples.Values.{python}
use ucloud_sandboxes_sdk.Examples.Relays.{the_token, registration}

abbrev session : Session
session = record { rollout_id = "r"; token = some the_token }

opens : open_session (ok registration) "r" [] ≡ ok (session, ("r", the_token) ∷ [])
unfolding open_session remember_registration registered_token token_from_response required_string
    validate_registration_token
opens = refl

abbrev acknowledge : String → ℕ → Result Exception Fields
acknowledge token attempt = ok end

closes :
    close_session python acknowledge session (("r", the_token) ∷ [])
    ≡ (ok tt, record { rollout_id = "r"; token = none }, [])
unfolding close_session unregister_rollout repeat_call registration_token forget_registration
    validate_registration_token
closes = refl

open_session-close_session_example :
    ((token : String) × (session.token ≡ some token)
      × (look "r" (("r", the_token) ∷ []) ≡ some token))
    × (◌≡◌ {A = Option String} none none)
    × (look {A = String} "r" [] ≡ none)
    × ((other : String) → ("r" == other) ≡ false → look {A = String} other [] ≡ look other [])
open_session-close_session_example =
    open_session-close_session python (ok registration) acknowledge "r" [] (("r", the_token) ∷ [])
      [] session (record { rollout_id = "r"; token = none }) opens closes

abbrev policy : Policy
policy = record { egress = "relay"; relay = some "eu-1" }

abbrev policy_dict : Json
policy_dict = obj (field "relay" (str "eu-1") (field "egress" (str "relay") end))

reads_policy : policy_from_dict policy_dict ≡ ok policy
unfolding policy_from_dict make_policy
reads_policy = refl

abbrev agent : Spec
agent = record {
  id = "a";
  image = "i";
  command = [];
  env = [];
  working_dir = none;
  memory_mb = some (pos 512);
  cpus = none;
  disk_mb = none;
  network = "bridge";
  network_policy = policy;
  ttl_seconds = none;
  ssh = record {
    enabled = false;
    user = "root";
    host = "127.0.0.1";
    host_port = none;
    container_port = pos 22;
    authorized_keys = [];
  };
  security = none;
  filesystem = none;
  labels = [];
  parkable = true;
  managed_process = true;
  profile = "container";
  linux_host = record {
    enable_cron = false;
    enable_sshd = false;
    keep_alive = true;
    writable_paths = [];
  };
  toolkits = [];
}

agent_accepted : spec_to_dict agent ≡ ok (spec_fields agent)
unfolding spec_to_dict
agent_accepted = refl

spec_to_dict-require_agent_example :
    (agent.parkable ≡ true)
    × (agent.command ≡ [])
    × ((agent.profile == "container") ≡ true)
    × (require_agent_record
          (field "spec" (obj (spec_fields agent)) (field "generation" (int (pos 3)) end))
          true
        ≡ ok (some (pos 3)))
spec_to_dict-require_agent_example =
    spec_to_dict-require_agent agent (spec_fields agent) 2 agent_accepted refl
