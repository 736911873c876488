-- ===== src/Pm/Api.antt =====
-- addons/pm/api/child.go: what a child is, and what is reported of it.
use gdev.Base.{ℕ, String, Bool, Option, List}
use gdev.Base.Dict.{Dict}

pub record Exec : Type 0 where
  pub cmd : String
  pub args : List String
  pub cwd : String
  pub env : Dict String
  pub logfile : String

pub record HttpHealthCheck : Type 0 where
  pub scheme : String
  pub insecure : Bool
  pub port : ℕ
  pub path : String

pub record HealthCheck : Type 0 where
  pub http : Option HttpHealthCheck
  pub timeout_seconds : ℕ

pub record Child : Type 0 where
  pub name : String
  pub annotations : Dict String
  pub init : List Exec
  pub main : Exec
  pub health_check : Option HealthCheck
  pub one_shot : Bool
  pub no_restart : Bool

pub data ExecState : Type 0 where
  not_started exec_running exec_stopping ended : ExecState

-- Exit codes are -1 for a process ended by a signal.
pub data ExitCode : Type 0 where
  code : ℕ → ExitCode
  signalled : ExitCode

pub record ExecStatus : Type 0 where
  pub state : ExecState
  pub start_err : String
  pub pid : ℕ
  pub group : String
  pub exit_code : ExitCode

pub record HealthStatus : Type 0 where
  pub healthy : Bool
  pub last_healthy : Option ℕ
  pub last_unhealthy : Option ℕ

pub data ChildState : Type 0 where
  stopped init_running init_error running stopping done error : ChildState

pub record ChildStatus : Type 0 where
  pub state : ChildState
  pub init : List ExecStatus
  pub main : ExecStatus
  pub health : HealthStatus

pub record ChildWithStatus : Type 0 where
  pub child : Child
  pub status : ChildStatus

pub record ChildSummary : Type 0 where
  pub name : String
  pub annotations : Dict String
  pub state : ChildState
  pub pid : ℕ
  pub healthy : Option Bool
