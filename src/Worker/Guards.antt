-- ===== src/Worker/Guards.antt =====
-- What a worker lets a controller do to its files.
use distray.Base.{
  ◌≡◌, refl, true, Option, none, some, List, [], ◌∷◌, Bytes, Bool-cases, inl, inr, ◌⊎◌, ℕ, length,
}
use distray.Util.Pathname.{is_pathname_local}
use distray.Drp.{RequestType, welcome, copy_in, execute, copy_out, Request, Response}
use distray.Wire.Codec.{Codec}
use distray.Wire.Incoming.{connreset, other}
use distray.Wire.Outgoing.{Sent, send_failed, sent_here}
use distray.Wire.Blocking.{send_message, Outcome, returned, failed, exited, receive_message}
use distray.Worker.{Machine, may_overwrite, answer, handle, Round, serve}

-- The pathname on the worker that a request is about.
abbrev pub path_in : RequestType → Request → Option Bytes
path_in welcome r = none
path_in copy_in r = some r.copy_in_request.pathname
path_in execute r = some r.execute_request.executable
path_in copy_out r = some r.copy_out_request.pathname

abbrev pub path_of : Request → Option Bytes
path_of r = path_in r.request_type r

module _ (machine : Machine) where
  open machine use {Disk, stat, write_file, spawn}

  Sent-cases : (s : Sent) → (s ≡ send_failed) ⊎ (k : ℕ) × (s ≡ sent_here k)
  Sent-cases send_failed = inl refl
  Sent-cases (sent_here k) = inr (k, refl)

  -- A property of the disk that is kept by the writes and the programs that the worker allows.
  module _ (P : Disk → Type 0)
      (writes : (d : Disk) (path content : Bytes)
        → is_pathname_local path ≡ true
        → may_overwrite (stat d path) ≡ true
        → P d
        → P (write_file d path content).1)
      (spawns : (d : Disk) (path : Bytes) (arguments : List Bytes)
        → is_pathname_local path ≡ true
        → P d
        → P (spawn d path arguments).1) where
    answer-keeps : (t : RequestType) (r : Request) (d : Disk) → P d → P (answer machine t r d).1
    unfolding answer
    answer-keeps welcome r d h = h
    answer-keeps copy_in r d h = elim (Bool-cases (is_pathname_local r.copy_in_request.pathname)) [
      | inr far ↦ rw far h
      | inl near ↦ elim (Bool-cases (may_overwrite (stat d r.copy_in_request.pathname))) [
        | inr guarded ↦ rw (near, guarded) h
        | inl free ↦
            rw (near, free)
              (writes d r.copy_in_request.pathname r.copy_in_request.content near free h)
      ]
    ]
    answer-keeps execute r d h =
        elim (Bool-cases (is_pathname_local r.execute_request.executable)) [
          | inr far ↦ rw far h
          | inl near ↦
              rw near (spawns d r.execute_request.executable r.execute_request.argument near h)
        ]
    answer-keeps copy_out r d h = h

    -- Whatever arrives, in any number of rounds: a property of the disk that survives each write to
    -- a local pathname where there is no executable file, and each run of a local program, holds of
    -- the disk that the loop leaves. So the worker changes its disk in no other way.
    pub serve-keeps :
        (requests : Codec Request) (responses : Codec Response)
        → (rs : List Round) (d : Disk) → P d
        → P (serve machine requests responses rs d).disk
    unfolding serve
    serve-keeps requests responses [] d h = h
    serve-keeps requests responses (r ∷ rs) d h =
        go (receive_message requests r.size r.content) refl
          (λ d' k. serve-keeps requests responses rs d' k)
      where
        go :
            (m : Outcome Request)
            → receive_message requests r.size r.content ≡ m
            → ((d' : Disk) → P d' → P (serve machine requests responses rs d').disk)
            → P (serve machine requests responses (r ∷ rs) d).disk
        go (failed connreset) e ih = rw (e, serve) h
        go (failed other) e ih = rw (e, serve) h
        go exited e ih = rw (e, serve) h
        go (returned request) e ih =
            let kept = answer-keeps request.request_type request d h in
            let bytes = send_message responses (handle machine request d).0 in
            elim (Sent-cases (r.sent (length bytes))) [
              | inl s ↦ rw (e, serve, s) kept
              | inr (k, s) ↦ rw (e, serve, s) (ih (handle machine request d).1 kept)
            ]
