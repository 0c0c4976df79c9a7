-- ===== src/Program/Args/CommandLine.antt =====
-- Operations written as a command line, and read back.
use nvram.Base.{
  ◌≡◌, ℕ, Bool, true, List, [], ◌∷◌, ◌++◌, Bytes, codes, ok, pure, append_assoc, append-nil, same,
  ap, ◌∙◌, >>=-ok,
}
use nvram.Entry.{Runtime, allocate, allocate-ok}
use nvram.Operation.{Operation, list, set, get, del}
use nvram.Program.Args.{
  Options, no_options, classify, with_value, operation_size, add_operation, add_set, step,
  parse_from, default_operation, parse_args,
}

abbrev pub args_of : Operation → List Bytes
args_of list = codes "--list" ∷ []
args_of (set key value) = codes "--set" ∷ key ∷ value ∷ []
args_of (get key) = codes "--get" ∷ key ∷ []
args_of (del key) = codes "--del" ∷ key ∷ []

abbrev pub command_line : List Operation → List Bytes
command_line [] = []
command_line (op ∷ ops) = args_of op ++ command_line ops

module _ {World : Type 0} (R : Runtime World) where
  module _ (enough : (n : ℕ) (w : World) → R.malloc n w ≡ (true, w)) where
    add_operation-ok :
        (op : Operation) (o : Options) (w : World)
        → add_operation R op o w ≡ (ok (record o { operations = o.operations ++ op ∷ [] }), w)
    unfolding add_operation
    add_operation-ok op o w =
        let sized = ap (λ (x : Bool × World). x.0) (enough operation_size w) in
        let after = ap (λ (x : Bool × World). x.1) (enough operation_size w) in
        >>=-ok (allocate R operation_size)
          (λ _. pure (record o { operations = o.operations ++ op ∷ [] })) w
          (allocate-ok R operation_size w sized)
        ∙ rw after

    -- The arguments of one operation take one round of the loop.
    parse_from-args_of :
        (op : Operation) (rest : List Bytes) (o : Options) (w : World)
        → parse_from R 0 (args_of op ++ rest) o w
          ≡ parse_from R 0 rest (record o { operations = o.operations ++ op ∷ [] }) w
    unfolding parse_from step add_set with_value classify same
    parse_from-args_of list rest o w =
        >>=-ok (add_operation R list o) (parse_from R 0 rest) w (add_operation-ok list o w)
    parse_from-args_of (set key value) rest o w =
        >>=-ok (add_operation R (set key value) o) (parse_from R 2 (key ∷ value ∷ rest)) w
          (add_operation-ok (set key value) o w)
    parse_from-args_of (get key) rest o w =
        >>=-ok (add_operation R (get key) o) (parse_from R 1 (key ∷ rest)) w
          (add_operation-ok (get key) o w)
    parse_from-args_of (del key) rest o w =
        >>=-ok (add_operation R (del key) o) (parse_from R 1 (key ∷ rest)) w
          (add_operation-ok (del key) o w)

    parse_from-command_line :
        (ops : List Operation) (o : Options) (w : World)
        → parse_from R 0 (command_line ops) o w
          ≡ (ok (record o { operations = o.operations ++ ops }), w)
    unfolding parse_from
    parse_from-command_line [] o w = rw (append-nil o.operations)
    parse_from-command_line (op ∷ ops) o w =
        parse_from-args_of op (command_line ops) o w
        ∙ (parse_from-command_line ops (record o { operations = o.operations ++ op ∷ [] }) w
            ∙ rw (append_assoc o.operations (op ∷ []) ops))

    -- Where no allocation fails, the arguments that name one or more operations, whatever their keys
    -- and values are, are parsed to those operations in their order, with no other option set.
    pub parse_args-command_line :
        (op : Operation) (ops : List Operation) (w : World)
        → parse_args R (command_line (op ∷ ops)) w
          ≡ (ok (record no_options { operations = op ∷ ops }), w)
    unfolding parse_args default_operation
    parse_args-command_line op ops w =
        >>=-ok (parse_from R 0 (command_line (op ∷ ops)) no_options) (default_operation R) w
          (parse_from-command_line (op ∷ ops) no_options w)
