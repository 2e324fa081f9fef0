-- ===== src/Storage/Model.antt =====
-- The rows of package `storage`: file.go, directory.go, version.go, share.go and pool.go of
-- nexuscloud/internal/storage. Times are numbers of nanoseconds; an optional string is the
-- empty one, an optional time or number an `Option`.
use nexuscloud.Base.{ℕ, Bool, Option, Str, is_some}

pub record FileMeta : Type 0 where
  pub id : Str
  pub pool_id : Str
  pub owner_id : Str
  pub parent_path : Str
  pub name : Str
  pub size_bytes : ℕ
  pub sha256 : Str
  pub mime_type : Str
  pub created_at : ℕ
  pub updated_at : ℕ
  pub deleted_at : Option ℕ

pub record Directory : Type 0 where
  pub id : Str
  pub pool_id : Str
  pub owner_id : Str
  pub parent_path : Str
  pub name : Str
  pub created_at : ℕ
  pub deleted_at : Option ℕ

pub record FileVersion : Type 0 where
  pub id : Str
  pub file_id : Str
  pub version_num : ℕ
  pub size_bytes : ℕ
  pub sha256 : Str
  pub mime_type : Str
  pub storage_key : Str
  pub created_at : ℕ

pub data ShareType : Type 0 where
  user group link : ShareType

pub record Share : Type 0 where
  pub id : Str
  pub owner_id : Str
  pub file_id : Str
  pub directory_id : Str
  pub share_type : ShareType
  pub target_user_id : Str
  pub target_group_id : Str
  pub token_hash : Str
  pub label : Str
  pub can_download : Bool
  pub can_upload : Bool
  pub password_hash : Str
  pub expires_at : Option ℕ
  pub max_downloads : Option ℕ
  pub download_count : ℕ
  pub max_upload_size_bytes : Option ℕ
  pub revoked_at : Option ℕ
  pub created_at : ℕ
  pub updated_at : ℕ

pub record Pool : Type 0 where
  pub id : Str
  pub is_local : Bool
  pub is_active : Bool
  pub priority : ℕ
  pub created_at : ℕ

-- `FileMeta.IsTrashed` and `Directory.IsTrashed`
abbrev pub is_trashed : FileMeta → Bool
is_trashed f = is_some f.deleted_at

abbrev pub dir_is_trashed : Directory → Bool
dir_is_trashed d = is_some d.deleted_at
