-- ===== src/Echo/CommandLine.antt =====
-- examples/echo_client.rs: the variables of `main` and the options that set them. The library
-- argparse reads the command line; it assigns to the variables that `refer` has given it.
use rust_mumble_protocol.Base.{ℕ, Bool, true, false, Option, none, List, [], ◌∷◌, Bytes}
use Prim.Native.String.{String}

pub record Options : Type 0 where
  pub server_host : Bytes
  pub server_port : ℕ
  pub user_name : Bytes
  pub password : Option Bytes
  pub accept_invalid_cert : Bool

abbrev pub default_options : Options
default_options = record {
  server_host = [];
  server_port = 64738;
  user_name = b'E' ∷ b'c' ∷ b'h' ∷ b'o' ∷ b'B' ∷ b'o' ∷ b't' ∷ [];
  password = none;
  accept_invalid_cert = false;
}

-- What `refer` is called on.
pub data Variable : Type 0 where
  server_host server_port user_name password accept_invalid_cert : Variable

abbrev pub Value : Variable → Type 0
Value server_host = Bytes
Value server_port = ℕ
Value user_name = Bytes
Value password = Option Bytes
Value accept_invalid_cert = Bool

-- What an option does with its variable.
pub data Action : Type 0 where
  store store_option store_true : Action

pub record Argument : Type 0 where
  pub refer : Variable
  pub name : String
  pub action : Action
  pub help : String
  pub required : Bool

pub record ArgumentParser : Type 0 where
  pub description : String
  pub arguments : List Argument

abbrev pub argument_parser : ArgumentParser
argument_parser = record {
  description = "Run the echo client example";
  arguments =
      record {
        refer = server_host;
        name = "--host";
        action = store;
        help = "Hostname of mumble server";
        required = true;
      }
      ∷ record {
        refer = server_port;
        name = "--port";
        action = store;
        help = "Port of mumble server";
        required = false;
      }
      ∷ record {
        refer = user_name;
        name = "--username";
        action = store;
        help = "User name used to connect";
        required = false;
      }
      ∷ record {
        refer = password;
        name = "--password";
        action = store_option;
        help = "Server password used to connect";
        required = false;
      }
      ∷ record {
        refer = accept_invalid_cert;
        name = "--accept-invalid-cert";
        action = store_true;
        help = "Accept invalid TLS certificates";
        required = false;
      }
      ∷ [];
}

-- What the parser writes through one of the references.
pub data Assignment : Type 0 where
  assigned : (variable : Variable) → Value variable → Assignment

abbrev pub assign : Assignment → Options → Options
assign (assigned server_host v) o = record o { server_host = v }
assign (assigned server_port v) o = record o { server_port = v }
assign (assigned user_name v) o = record o { user_name = v }
assign (assigned password v) o = record o { password = v }
assign (assigned accept_invalid_cert v) o = record o { accept_invalid_cert = v }

abbrev pub assign_all : List Assignment → Options → Options
assign_all [] o = o
assign_all (assignment ∷ assignments) o = assign_all assignments (assign assignment o)
