-- ===== src/Interp/Instr.antt =====
-- The instructions of the abstract machine, in the order of byterun/instruct.h, whose numbers are
-- the opcodes.
use ocamil.Prelude.{ℕ, List, [], ◌∷◌, Option, get_elem?}

-- `enum instructions`
pub data Instr : Type 0 where
  acc0 acc1 acc2 acc3 acc4 acc5 acc6 acc7 acc push pushacc0 pushacc1 pushacc2 pushacc3 : Instr
  pushacc4 pushacc5 pushacc6 pushacc7 pushacc pop assign envacc1 envacc2 envacc3 envacc4 : Instr
  envacc pushenvacc1 pushenvacc2 pushenvacc3 pushenvacc4 pushenvacc push_retaddr apply : Instr
  apply1 apply2 apply3 appterm appterm1 appterm2 appterm3 return restart grab closure : Instr
  closurerec offsetclosurem2 offsetclosure0 offsetclosure2 offsetclosure : Instr
  pushoffsetclosurem2 pushoffsetclosure0 pushoffsetclosure2 pushoffsetclosure getglobal : Instr
  pushgetglobal getglobalfield pushgetglobalfield setglobal atom0 atom pushatom0 pushatom : Instr
  makeblock makeblock1 makeblock2 makeblock3 makefloatblock getfield0 getfield1 getfield2 : Instr
  getfield3 getfield getfloatfield setfield0 setfield1 setfield2 setfield3 setfield : Instr
  setfloatfield vectlength getvectitem setvectitem getstringchar setstringchar branch : Instr
  branchif branchifnot switch boolnot pushtrap poptrap raise check_signals c_call1 : Instr
  c_call2 c_call3 c_call4 c_call5 c_calln const0 const1 const2 const3 constint pushconst0 : Instr
  pushconst1 pushconst2 pushconst3 pushconstint negint addint subint mulint divint modint : Instr
  andint orint xorint lslint lsrint asrint eq neq ltint leint gtint geint offsetint : Instr
  offsetref isint getmethod beq bneq bltint bleint bgtint bgeint ultint ugeint bultint : Instr
  bugeint stop event break : Instr

abbrev opcodes : List Instr
opcodes =
    acc0 ∷ acc1 ∷ acc2 ∷ acc3 ∷ acc4 ∷ acc5 ∷ acc6 ∷ acc7 ∷ acc ∷ push ∷ pushacc0 ∷ pushacc1
    ∷ pushacc2 ∷ pushacc3 ∷ pushacc4 ∷ pushacc5 ∷ pushacc6 ∷ pushacc7 ∷ pushacc ∷ pop ∷ assign
    ∷ envacc1 ∷ envacc2 ∷ envacc3 ∷ envacc4 ∷ envacc ∷ pushenvacc1 ∷ pushenvacc2 ∷ pushenvacc3
    ∷ pushenvacc4 ∷ pushenvacc ∷ push_retaddr ∷ apply ∷ apply1 ∷ apply2 ∷ apply3 ∷ appterm
    ∷ appterm1 ∷ appterm2 ∷ appterm3 ∷ return ∷ restart ∷ grab ∷ closure ∷ closurerec
    ∷ offsetclosurem2 ∷ offsetclosure0 ∷ offsetclosure2 ∷ offsetclosure ∷ pushoffsetclosurem2
    ∷ pushoffsetclosure0 ∷ pushoffsetclosure2 ∷ pushoffsetclosure ∷ getglobal ∷ pushgetglobal
    ∷ getglobalfield ∷ pushgetglobalfield ∷ setglobal ∷ atom0 ∷ atom ∷ pushatom0 ∷ pushatom
    ∷ makeblock ∷ makeblock1 ∷ makeblock2 ∷ makeblock3 ∷ makefloatblock ∷ getfield0 ∷ getfield1
    ∷ getfield2 ∷ getfield3 ∷ getfield ∷ getfloatfield ∷ setfield0 ∷ setfield1 ∷ setfield2
    ∷ setfield3 ∷ setfield ∷ setfloatfield ∷ vectlength ∷ getvectitem ∷ setvectitem ∷ getstringchar
    ∷ setstringchar ∷ branch ∷ branchif ∷ branchifnot ∷ switch ∷ boolnot ∷ pushtrap ∷ poptrap
    ∷ raise ∷ check_signals ∷ c_call1 ∷ c_call2 ∷ c_call3 ∷ c_call4 ∷ c_call5 ∷ c_calln ∷ const0
    ∷ const1 ∷ const2 ∷ const3 ∷ constint ∷ pushconst0 ∷ pushconst1 ∷ pushconst2 ∷ pushconst3
    ∷ pushconstint ∷ negint ∷ addint ∷ subint ∷ mulint ∷ divint ∷ modint ∷ andint ∷ orint ∷ xorint
    ∷ lslint ∷ lsrint ∷ asrint ∷ eq ∷ neq ∷ ltint ∷ leint ∷ gtint ∷ geint ∷ offsetint ∷ offsetref
    ∷ isint ∷ getmethod ∷ beq ∷ bneq ∷ bltint ∷ bleint ∷ bgtint ∷ bgeint ∷ ultint ∷ ugeint ∷ bultint
    ∷ bugeint ∷ stop ∷ event ∷ break ∷ []

-- The instruction with a given opcode; any other number is a fault.
unfoldable pub instr_of : ℕ → Option Instr
instr_of opcode = get_elem? opcodes opcode
