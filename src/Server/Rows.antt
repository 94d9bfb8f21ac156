-- ===== src/Server/Rows.antt =====
-- The rows of the tables, as database/typescript/db.ts and frontend/lib/models.ts describe them. A
-- timestamp is a number that grows with time.
use foxplay_game.Common.{ℕ, String, Option}

pub record InstanceRow : Type 0 where
  pub id : String
  pub name : String
  pub user_id : Option String
  pub state : String
  pub base_image : String
  pub vcpu : ℕ
  pub mem_mib : ℕ
  pub guest_ip : Option String
  pub ssh_host_port : Option ℕ
  pub ssh_public_key : Option String
  pub created_at : ℕ
  pub deleted_at : Option ℕ

pub record FunctionRow : Type 0 where
  pub id : String
  pub name : String
  pub user_id : Option String
  pub created_at : ℕ
  pub deleted_at : Option ℕ

pub record SshKeyRow : Type 0 where
  pub id : String
  pub name : String
  pub public_key : String
  pub user_id : Option String
  pub created_at : ℕ
  pub deleted_at : Option ℕ
