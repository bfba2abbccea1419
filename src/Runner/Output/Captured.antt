-- ===== src/Runner/Output/Captured.antt =====
-- How much of a command's output a goodfile gets (ci-runner/src/main.rs).
use build_o_tron.Base.{append_nil, append_assoc, ◌≡◌, refl, ap, ◌∙◌, sym, List, [], ◌∷◌, ◌++◌, ok}
use build_o_tron.Native.Io.{Bytes, new, poll_write, take_buf}
use build_o_tron.Runner.Output.{
  Written, on_stdout, on_stderr, CommandOutput, Collectors, forward, forward_each, Ran,
  execute_command_capture_output,
}

-- The bytes of one pipe.
abbrev pub stdout_of : List Written → Bytes
stdout_of [] = []
stdout_of (on_stdout b ∷ ws) = b ++ stdout_of ws
stdout_of (on_stderr b ∷ ws) = stdout_of ws

abbrev pub stderr_of : List Written → Bytes
stderr_of [] = []
stderr_of (on_stdout b ∷ ws) = stderr_of ws
stderr_of (on_stderr b ∷ ws) = b ++ stderr_of ws

forward_each-bodies :
    (ws : List Written) (c : Collectors)
    → ((forward_each ws c).out.body ≡ c.out.body ++ stdout_of ws)
      × ((forward_each ws c).error_out.body ≡ c.error_out.body ++ stderr_of ws)
unfolding forward_each forward poll_write
forward_each-bodies [] c = (sym (append_nil c.out.body), sym (append_nil c.error_out.body))
forward_each-bodies (on_stdout b ∷ ws) c =
    let (o, e) = forward_each-bodies ws (forward (on_stdout b) c) in
    (o ∙ append_assoc c.out.body b (stdout_of ws), e)
forward_each-bodies (on_stderr b ∷ ws) c =
    let (o, e) = forward_each-bodies ws (forward (on_stderr b) c) in
    (o, e ∙ append_assoc c.error_out.body b (stderr_of ws))

stdout_of-append : (xs ys : List Written) → stdout_of (xs ++ ys) ≡ stdout_of xs ++ stdout_of ys
stdout_of-append [] ys = refl
stdout_of-append (on_stdout b ∷ xs) ys =
    ap (λ l. b ++ l) (stdout_of-append xs ys) ∙ sym (append_assoc b (stdout_of xs) (stdout_of ys))
stdout_of-append (on_stderr b ∷ xs) ys = stdout_of-append xs ys

-- What a goodfile gets of a command's standard output is what had been passed on when the exit was
-- seen: all that the command wrote is this and what was still to be passed on, which is lost. The
-- two pipes are kept apart.
pub captured-before_exit :
    (ran : Ran) (o : CommandOutput)
    → execute_command_capture_output (ok ran) ≡ ok o
    → (o.stdout ≡ stdout_of ran.before_exit)
      × (o.stderr ≡ stderr_of ran.before_exit)
      × (stdout_of (ran.before_exit ++ ran.after_exit) ≡ o.stdout ++ stdout_of ran.after_exit)
unfolding execute_command_capture_output new take_buf
captured-before_exit ran o h =
    let start : Collectors = record { out = new; error_out = new } in
    let (out, error_out) = forward_each-bodies ran.before_exit start in
    let k : record {
      exit_status = ran.exit;
      stdout = (forward_each ran.before_exit start).out.body;
      stderr = (forward_each ran.before_exit start).error_out.body;
    }
        ≡ o =
      cc h in
    let kept : o.stdout ≡ stdout_of ran.before_exit =
      sym (ap (λ (x : CommandOutput). x.stdout) k) ∙ out in
    (
      kept,
      sym (ap (λ (x : CommandOutput). x.stderr) k) ∙ error_out,
      stdout_of-append ran.before_exit ran.after_exit
          ∙ ap (λ l. l ++ stdout_of ran.after_exit) (sym kept),
    )
