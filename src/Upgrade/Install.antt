-- ===== src/Upgrade/Install.antt =====
-- gateway/upgrade.go: `upgradeMyself`, over the files that it changes. What the
-- network and the system answer is an argument; `none` is no error.
pub mod Laws
use uptp.Common.{
  ℕ, Bool, true, false, Option, none, some, String, List, Answer, gives, fails, if◌then◌else◌, ◌==◌,
  ◌!=◌, nat_eq,
}
use uptp.Common.Int.{int_eq}
use uptp.Apiutil.{Reply, send_message}
use uptp.Upgrade.Version.{compare_version, less}

-- What a file holds: the program that was installed, all or a part of the one that was
-- downloaded, or something else.
pub data Content : Type 0 where
  old_program new_program partial foreign : Content

pub record File : Type 0 where
  pub content : Content
  pub executable : Bool

-- The files at the path of the executable, at that path with ".bak", and in the temporary directory
pub record Disk : Type 0 where
  pub bin : Option File
  pub bak : Option File
  pub tmp : Option File

-- `upgrade.LatestInfo`, as far as it is read here
pub record LatestInfo : Type 0 where
  pub version : List ℕ
  pub download_server : String
  pub download_path : String

-- `query` is what `QueryLatestVersion` returns, `download` the status of the response.
pub record Answers : Type 0 where
  pub query : Answer LatestInfo
  pub download : Answer ℕ
  pub create_temp : Option String
  pub copy_body : Option String
  pub executable : Option String
  pub rename : Option String
  pub open_download : Option String
  pub create_target : Option String
  pub copy_file : Option String
  pub chmod : Option String

-- The replies carry no data.
abbrev pub NoData : Type 0
NoData = Unit

-- A reply to the console; `none` is no reply at all.
abbrev pub Step : Type 0
Step = Option (Reply NoData) × Disk

abbrev pub stop : ℕ → String → Disk → Step
stop code text disk = (some (send_message code text), disk)

-- The last steps, once the old program was moved away.
unfoldable pub replace : Answers → Disk → Step
replace a disk = elim a.open_download [
  | some e ↦ stop 500 "open downloaded executable failed" disk
  | none ↦ elim a.create_target [
    | some e ↦ stop 500 "open target executable failed" disk
    | none ↦ elim a.copy_file [
      | some e ↦
          stop 500 "copy file failed"
            (record disk { bin = some (record { content = partial; executable = false }) })
      | none ↦ elim a.chmod [
        | some e ↦ (
          none,
          record disk { bin = some (record { content = new_program; executable = false }) },
        )
        | none ↦
            stop 0 "upgrade gateway success, please restart"
              (record disk { bin = some (record { content = new_program; executable = true }) })
      ]
    ]
  ]
]

-- The steps on a response of the download server.
unfoldable pub install : Answers → Disk → Step
unfolding replace
install a disk = elim a.create_temp [
  | some e ↦ stop 500 "create team file failed" disk
  | none ↦ elim a.copy_body [
    | some e ↦
        stop 500 "download latest version failed"
          (record disk { tmp = some (record { content = partial; executable = false }) })
    | none ↦
        let held = record disk {
          tmp = some (record { content = new_program; executable = false });
        } in
        elim a.executable [
          | some e ↦ stop 500 "get executable path failed" held
          | none ↦ elim a.rename [
            | some e ↦ stop 500 "rename executable failed" held
            | none ↦ replace a (record held { bin = none; bak = disk.bin })
          ]
        ]
  ]
]

-- `upgradeMyself`, where `current` is `common.GatewayVersion`
unfoldable pub upgrade_myself : List ℕ → Answers → Disk → Step
unfolding install
upgrade_myself current a disk = elim a.query [
  | fails e ↦ stop 500 "query latest version failed" disk
  | gives info ↦
      if compare_version current info.version != less
      then stop 0 "is latest version" disk
      else elim a.download [
        | fails e ↦ stop 500 "download latest version failed" disk
        | gives status ↦
            if status != 200 then stop 500 "download latest version failed" disk else install a disk
      ]
]
