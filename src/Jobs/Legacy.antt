-- ===== src/Jobs/Legacy.antt =====
-- internal/jobs/jobs.go: normalizeLegacyJobText, the English for the texts that older versions of
-- the server stored. The replacements are a Go map, whose order is not fixed; they are taken in
-- the order of the source.
use Prim.Native.String.{[], ◌∷◌}
use Prim.Native.String
use yesnas_server.Prelude.{
  ℕ, zero, suc, ◌≡◌, refl, String, Option, none, some, List, str_eq, if◌then◌else◌,
}
use yesnas_server.Prelude.Text.{trim_space}
use yesnas_server.Prelude.FilePath.{has_prefix}
use yesnas_server.Jobs.Model.{Job}

abbrev skip_rest : String → ℕ
skip_rest [] = 0
skip_rest (c ∷ s) = String.count s

-- strings.ReplaceAll for a text that is not empty; the number counts the characters that a match
-- has already taken.
unfoldable pub replace_from : String → String → ℕ → String → String
unfolding has_prefix
replace_from old new skip [] = []
replace_from old new zero (c ∷ s) =
    let matched = String.◌++◌ new (replace_from old new (skip_rest old) s) in
    let kept = c ∷ replace_from old new zero s in if has_prefix old (c ∷ s) then matched else kept
replace_from old new (suc skip) (c ∷ s) = replace_from old new skip s

unfoldable pub replace_all : String → String → String → String
unfolding replace_from
replace_all old new s = replace_from old new 0 s

abbrev whole_texts : List (String × String)
whole_texts =
    List.◌∷◌ ("同步到 Google Drive", "Sync to Google Drive")
      (List.◌∷◌ ("等待同步", "Waiting to sync")
        (List.◌∷◌ ("正在同步到云盘", "Syncing to cloud storage")
          (List.◌∷◌ ("正在上传到 Google Drive", "Uploading to Google Drive")
            (List.◌∷◌ ("同步任务已停止", "Sync job stopped")
              (List.◌∷◌ ("同步失败", "Sync failed")
                (List.◌∷◌ ("同步完成", "Sync completed")
                  (List.◌∷◌ ("不支持的任务类型", "Unsupported job type")
                    (List.◌∷◌ ("云存储不存在", "Cloud storage not found") List.[]))))))))

abbrev replacements : List (String × String)
replacements =
    List.◌∷◌ ("解析同步任务失败", "Failed to decode sync job payload")
      (List.◌∷◌ ("打开本地缓存文件失败", "Failed to open local cache file")
        (List.◌∷◌ ("上传到 Google Drive 失败", "Failed to upload to Google Drive")
          (List.◌∷◌ ("任务心跳超时", "Job heartbeat timed out")
            (List.◌∷◌ ("后台超过", "the backend has not updated this job for more than")
              (List.◌∷◌
                (
                  "没有更新；任务可能已停止或服务曾经重启",
                  "The job may have stopped or the service may have restarted.",
                )
                List.[])))))

whole_text : String → List (String × String) → Option String
whole_text value List.[] = none
whole_text value (List.◌∷◌ (old, new) texts) =
    if str_eq value old then some new else whole_text value texts

replace_each : List (String × String) → String → String
unfolding replace_all
replace_each List.[] value = value
replace_each (List.◌∷◌ (old, new) texts) value = replace_each texts (replace_all old new value)

unfoldable pub normalize_legacy_job_text : String → String
unfolding whole_text replace_each trim_space
normalize_legacy_job_text value =
    let trimmed = trim_space value in
    elim (whole_text trimmed whole_texts) [
      | some text ↦ text
      | none ↦ replace_each replacements trimmed
    ]

unfoldable pub normalize_job_for_response : Job → Job
normalize_job_for_response item = record item {
  message = normalize_legacy_job_text item.message;
  error_message = normalize_legacy_job_text item.error_message;
}

legacy_test :
    normalize_legacy_job_text " 上传到 Google Drive 失败: EOF" ≡ "Failed to upload to Google Drive: EOF"
unfolding normalize_legacy_job_text
legacy_test = refl
