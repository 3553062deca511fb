-- ===== src/Job/Replies.antt =====
-- One round of dispatch on each response that the worker may give, success or not.
use distray.Base.{ℕ, suc, ◌≡◌, refl, true, false, none, some, arith, get_elem?}
use distray.Base.Int.{negsuc, pos, ◌==ℤ◌}
use distray.Util.Parameter.{substitute_parameter}
use distray.Parameters.{Parameters, FileCopy}
use distray.Drp.{Response, welcome, copy_in, execute, copy_out}
use distray.Wire.Incoming.{reset}
use distray.RemoteWorker.{
  RemoteWorker, System, exited, dispatch_from, receive_welcome_response,
  send_copy_in_non_frame_file, receive_copy_in_non_frame_file, send_copy_in_frame_file,
  receive_copy_in_frame_file, receive_execute_response, send_copy_out_frame_file,
  receive_copy_out_frame_file,
}
use distray.RemoteWorker.Session.Steps.{at}
use distray.Job.Drive.{Inbox, arrived}

-- Behind a response the incoming buffer is ready for the next one.
abbrev pub settled : (system : System) → Inbox system → Response → RemoteWorker → RemoteWorker
settled system inbox m w = record w {
  incoming_buffer = reset (inbox.inbox m w.incoming_buffer);
  outgoing_buffer = inbox.outbox w.outgoing_buffer;
}

module _ (system : System) (parameters : Parameters) (inbox : Inbox system) (fuel i : ℕ)
    (m : Response) (w : RemoteWorker) (d : system.Disk) where
  pub copied_in_frame :
      m.request_type ≡ copy_in
      → m.copy_in_response.success ≡ true
      → dispatch_from system parameters
          (suc fuel)
          (arrived system inbox m (at receive_copy_in_frame_file i w))
          d
        ≡ dispatch_from system parameters fuel
            (at send_copy_in_frame_file (suc i) (settled system inbox m w))
            d
  unfolding dispatch_from
  copied_in_frame t y = rw (inbox.arrives m w.incoming_buffer, dispatch_from, t, y)

  pub refused_in_frame :
      m.request_type ≡ copy_in
      → m.copy_in_response.success ≡ false
      → dispatch_from system parameters
          (suc fuel)
          (arrived system inbox m (at receive_copy_in_frame_file i w))
          d
        ≡ exited
  unfolding dispatch_from
  refused_in_frame t y = rw (inbox.arrives m w.incoming_buffer, dispatch_from, t, y)

  pub copied_in_none :
      m.request_type ≡ copy_in
      → m.copy_in_response.success ≡ true
      → dispatch_from system parameters
          (suc fuel)
          (arrived system inbox m (at receive_copy_in_non_frame_file i w))
          d
        ≡ dispatch_from system parameters fuel
            (at send_copy_in_non_frame_file (suc i) (settled system inbox m w))
            d
  unfolding dispatch_from
  copied_in_none t y = rw (inbox.arrives m w.incoming_buffer, dispatch_from, t, y)

  pub refused_in_none :
      m.request_type ≡ copy_in
      → m.copy_in_response.success ≡ false
      → dispatch_from system parameters
          (suc fuel)
          (arrived system inbox m (at receive_copy_in_non_frame_file i w))
          d
        ≡ exited
  unfolding dispatch_from
  refused_in_none t y = rw (inbox.arrives m w.incoming_buffer, dispatch_from, t, y)

  pub welcomed :
      m.request_type ≡ welcome
      → dispatch_from system parameters
          (suc fuel)
          (arrived system inbox m (at receive_welcome_response i w))
          d
        ≡ dispatch_from system parameters fuel
            (at send_copy_in_non_frame_file 0 (record (settled system inbox m w) {
              hostname = m.welcome_response.hostname;
              proxy_index = negsuc 0;
            }))
            d
  unfolding dispatch_from
  welcomed t = rw (inbox.arrives m w.incoming_buffer, dispatch_from, t) refl

  pub executed :
      m.request_type ≡ execute
      → (m.execute_response.status ==ℤ pos 0) ≡ true
      → dispatch_from system parameters
          (suc fuel)
          (arrived system inbox m (at receive_execute_response i w))
          d
        ≡ dispatch_from system parameters fuel
            (at send_copy_out_frame_file 0 (settled system inbox m w))
            d
  unfolding dispatch_from
  executed t y = rw (inbox.arrives m w.incoming_buffer, dispatch_from, t, y)

  pub failed_program :
      m.request_type ≡ execute
      → (m.execute_response.status ==ℤ pos 0) ≡ false
      → dispatch_from system parameters
          (suc fuel)
          (arrived system inbox m (at receive_execute_response i w))
          d
        ≡ exited
  unfolding dispatch_from
  failed_program t y = rw (inbox.arrives m w.incoming_buffer, dispatch_from, t, y)

  module _ (c : FileCopy) where
    pub copied_out_frame :
        (d' : system.Disk)
        → m.request_type ≡ copy_out
        → get_elem? parameters.out_copies i ≡ some c
        → m.copy_out_response.success ≡ true
        → system.write_file d
            (substitute_parameter c.destination w.frame)
            m.copy_out_response.content
          ≡ some d'
        → dispatch_from system parameters
            (suc fuel)
            (arrived system inbox m (at receive_copy_out_frame_file i w))
            d
          ≡ dispatch_from system parameters fuel
              (at send_copy_out_frame_file (suc i) (settled system inbox m w))
              d'
    unfolding dispatch_from
    copied_out_frame d' t e y write =
        rw (inbox.arrives m w.incoming_buffer, dispatch_from) (ground (arith, t, e, y, write))

    pub unwritten_out_frame :
        m.request_type ≡ copy_out
        → get_elem? parameters.out_copies i ≡ some c
        → m.copy_out_response.success ≡ true
        → system.write_file d
            (substitute_parameter c.destination w.frame)
            m.copy_out_response.content
          ≡ none
        → dispatch_from system parameters
            (suc fuel)
            (arrived system inbox m (at receive_copy_out_frame_file i w))
            d
          ≡ exited
    unfolding dispatch_from
    unwritten_out_frame t e y write =
        rw (inbox.arrives m w.incoming_buffer, dispatch_from) (ground (arith, t, e, y, write))

    pub refused_out_frame :
        m.request_type ≡ copy_out
        → get_elem? parameters.out_copies i ≡ some c
        → m.copy_out_response.success ≡ false
        → dispatch_from system parameters
            (suc fuel)
            (arrived system inbox m (at receive_copy_out_frame_file i w))
            d
          ≡ exited
    unfolding dispatch_from
    refused_out_frame t e y =
        rw (inbox.arrives m w.incoming_buffer, dispatch_from) (ground (arith, t, e, y))
