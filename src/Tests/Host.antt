-- ===== src/Tests/Host.antt =====
-- What the agent reads of its host, at concrete inputs: packages, services, downloads and the prompt.
use appcenter_agent_linux.Base.{◌≡◌, refl, ◌⊎◌, none, some, pos, true, false, [], ◌∷◌, All, ◌++◌}
use appcenter_agent_linux.Text.{Text, codes, trim_space, has_suffix}
use appcenter_agent_linux.Text.Split.{fields}
use appcenter_agent_linux.Api.{ok, message}
use appcenter_agent_linux.Api.Download
use appcenter_agent_linux.Api.Download.{download_to_file, response}
use appcenter_agent_linux.Api.Download.Inside.{is_file_name, download_to_file-inside}
use appcenter_agent_linux.Inventory.{SoftwareItem, hash}
use appcenter_agent_linux.Inventory.Content.{IsPrintable, content-inj}
use appcenter_agent_linux.Inventory.Sync
use appcenter_agent_linux.Inventory.Sync.{Inventory, sync_inventory, refresh_ws_inventory_hash}
use appcenter_agent_linux.Inventory.Known.{Synced, sync_inventory-Synced, refresh_then_sync}
use appcenter_agent_linux.Services.{ServiceItem, collect}
use appcenter_agent_linux.Services.Listed.{IsItem, DistinctNames, collect-distinct}
use appcenter_agent_linux.Prompt.{success, prompt_approval, prompt_result}
use appcenter_agent_linux.Prompt.Answer.{Decided, prompt_approval-Decided}
use appcenter_agent_linux.Remote.Server.{failed}

abbrev bash : SoftwareItem
bash = record { name = codes "bash"; version = codes "5.2"; architecture = codes "amd64" }

bash-IsPrintable : IsPrintable bash
bash-IsPrintable = record {
  plain_name = (refl, (refl, (refl, (refl, tt))));
  plain_version = (refl, (refl, (refl, tt)));
  plain_architecture = (refl, (refl, (refl, (refl, (refl, tt)))));
}

content-inj_example : (bash ∷ []) ≡ (bash ∷ [])
content-inj_example =
    content-inj (bash ∷ []) (bash ∷ []) (bash-IsPrintable, tt) (bash-IsPrintable, tt) refl

abbrev stock : Sync.Env
stock = record {
  sha = λ t. codes "ab";
  collected = ok (bash ∷ []);
  submit = λ r. some (message (codes "timeout"));
  now = 100;
  has_client = true;
  sends_event = λ h. true;
}

abbrev inventory : Inventory
inventory = record {
  state_hash = codes "cd";
  last_sent = [];
  last_sent_at = 0;
  submits = [];
  sends = [];
}

sync_inventory-Synced_example : Synced stock true inventory (sync_inventory stock true inventory)
sync_inventory-Synced_example = sync_inventory-Synced stock true inventory

refresh_then_sync_example :
    sync_inventory stock false (refresh_ws_inventory_hash stock false inventory)
    ≡ (true, refresh_ws_inventory_hash stock false inventory)
unfolding trim_space hash
refresh_then_sync_example = refresh_then_sync stock false (bash ∷ []) inventory refl refl refl

abbrev ssh : ServiceItem
ssh = record {
  name = codes "ssh.service";
  display_name = codes "ssh";
  status = codes "running";
  startup_type = codes "auto";
  description = [];
}

collect-distinct_example : All IsItem (ssh ∷ []) × DistinctNames (ssh ∷ [])
unfolding collect trim_space has_suffix fields
collect-distinct_example =
    collect-distinct (ok (codes "ssh.service loaded active running"))
      (ok (codes "ssh.service enabled")) (ssh ∷ []) refl

abbrev works : Download.Env
works = record {
  request = λ u. ok tt;
  exchange = λ u. response 200 (codes "attachment; filename=\"../x.deb\"") (codes "data");
  join = λ dir name. dir ++ (b'/' ∷ name);
  mkdir_error = none;
  open_error = λ p. none;
  copied = λ body. ok 4;
}

download_to_file-inside_example :
    (file : Text) × (codes "/tmp/x.deb" ≡ (codes "/tmp" ++ (b'/' ∷ file)))
    × ((file ≡ codes "task_7.deb") ⊎ (is_file_name file ≡ true))
unfolding download_to_file
download_to_file-inside_example =
    download_to_file-inside works (codes "https://server") (codes "/file") (codes "/tmp")
      (codes "task_7.deb") (codes "/tmp/x.deb") 4 refl

prompt_approval-Decided_example :
    ((some (codes "/usr/bin/zenity") ≡ none)
      × (prompt_result (
            prompt_approval
              (some (codes "/usr/bin/zenity"))
              (λ p args d. success)
              []
              (codes "Ann")
              []
              (pos 30))
          ≡ failed))
    ⊎ ((p : Text) × (some (codes "/usr/bin/zenity") ≡ some p)
        × Decided success (
            prompt_result (
              prompt_approval
                (some (codes "/usr/bin/zenity"))
                (λ p args d. success)
                []
                (codes "Ann")
                []
                (pos 30))))
prompt_approval-Decided_example =
    prompt_approval-Decided (some (codes "/usr/bin/zenity")) (λ p args d. success) [] (codes "Ann")
      [] (pos 30)
