-- ===== src/Gocache/Http.antt =====
-- addons/gocache/http: the backend that talks HTTP, and the sample server in http/server.
--
-- A request holds its whole body, and a response its whole content. `authorized` is whether the request
-- carries what an authorizer adds.
pub mod Server
pub mod Client
use gdev.Base.{ℕ, String, Bool, true, false, ◌&&◌, Option, ltb, leb}

pub data Method : Type 0 where
  get head put delete move : Method
  other_method : String → Method

pub record Request : Type 0 where
  pub method : Method
  pub path : String
  pub body : String
  pub destination : Option String
  pub authorized : Bool

pub record Response : Type 0 where
  pub status : ℕ
  pub content : String

abbrev pub is_good : ℕ → Bool
is_good status = leb 200 status && ltb status 300
